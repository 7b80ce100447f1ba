-- ===== src/Raft/Replicas.antt =====
-- Replicas that hold the same entries answer and move alike: nothing that a command does depends
-- on the order in which a map is visited (internal/raft/state_machine_commands.go).
use filpe.Prelude.{◌≡◌, refl, inl, inr, Bool, arith, Option-cases, list_equality, number_equality}
use filpe.Prelude.Int.{pos}
use filpe.Prelude.Words.{int64_sub}
use filpe.Prelude.Texts.{Text}
use filpe.Prelude.Maps.{
  Map, lookup, insert, erase, erase_where, Unique, lookup-insert, lookup-erase, lookup-erase_where,
}
use filpe.Model.{Bucket, ObjectMeta, object_state_pending, object_state_committed}
use filpe.Raft.Types.{
  Code, CommandType, create_bucket, delete_bucket, stage_object_meta, upsert_object_meta,
  delete_staged_object_meta, delete_object_meta, create_blob_ref, update_blob_ref_placements,
  increase_blob_ref, decrease_blob_ref, unknown_command, MetadataBlobRef, MetadataCommand,
  MetadataResult,
}
use filpe.Raft.Commands.{
  State, clone, increment, new_blob_ref, bucket_name, in_bucket, object_map_key,
  apply_create_bucket, apply_delete_bucket, apply_upsert_object, apply_stage_object, check_object,
  apply_delete_staged, apply_delete_object, apply_create_blob_ref, apply_increase_blob_ref,
  apply_update_placements, apply_decrease_blob_ref, dispatch, apply_metadata_command,
}
use filpe.Raft.Machine.{SameMap, update_command}
use filpe.Raft.Invariant.{Inv}

pub record SameState (s t : State) : Type 0 where
  pub closed : s.closed ≡ t.closed
  pub buckets : SameMap s.buckets t.buckets
  pub objects : SameMap s.objects t.objects
  pub staged : SameMap s.staged_objects t.staged_objects
  pub refs : SameMap s.blob_refs t.blob_refs

-- Two outcomes of a command: the same answer, and states with the same entries.
abbrev pub Alike : State × MetadataResult × Code → State × MetadataResult × Code → Type 0
Alike (s, r, c) (t, q, d) = SameState s t × (r ≡ q) × (c ≡ d)

module _ {V : Type 0} (m n : Map Text V) (same : SameMap m n) where
  insert-SameMap : (k : Text) (v : V) → SameMap (insert k v m) (insert k v n)
  insert-SameMap k v j = rw (lookup-insert k j v m, lookup-insert k j v n, same j)

  erase-SameMap : (k : Text) → SameMap (erase k m) (erase k n)
  erase-SameMap k j = rw (lookup-erase k j m, lookup-erase k j n, same j)

  erase_where-SameMap :
      (p : V → Bool) → Unique m → Unique n → SameMap (erase_where p m) (erase_where p n)
  erase_where-SameMap p u w j = rw (lookup-erase_where p j m u, lookup-erase_where p j n w, same j)

module _ (s t : State) (h : SameState s t) where
  buckets-SameState :
      (m n : Map Text Bucket)
      → SameMap m n
      → SameState (record s { buckets = m }) (record t { buckets = n })
  buckets-SameState m n e = record {
    closed = h.closed;
    buckets = e;
    objects = h.objects;
    staged = h.staged;
    refs = h.refs;
  }

  objects-SameState :
      (m n : Map Text ObjectMeta)
      → SameMap m n
      → SameState (record s { objects = m }) (record t { objects = n })
  objects-SameState m n e = record {
    closed = h.closed;
    buckets = h.buckets;
    objects = e;
    staged = h.staged;
    refs = h.refs;
  }

  staged-SameState :
      (m n : Map Text ObjectMeta)
      → SameMap m n
      → SameState (record s { staged_objects = m }) (record t { staged_objects = n })
  staged-SameState m n e = record {
    closed = h.closed;
    buckets = h.buckets;
    objects = h.objects;
    staged = e;
    refs = h.refs;
  }

  refs-SameState :
      (m n : Map Text MetadataBlobRef)
      → SameMap m n
      → SameState (record s { blob_refs = m }) (record t { blob_refs = n })
  refs-SameState m n e = record {
    closed = h.closed;
    buckets = h.buckets;
    objects = h.objects;
    staged = h.staged;
    refs = e;
  }

  check-same : (meta : ObjectMeta) → check_object s meta ≡ check_object t meta
  unfolding check_object
  check-same meta = rw (h.buckets meta.bucket)

  create_bucket-Alike :
      (cmd : MetadataCommand) → Alike (dispatch create_bucket s cmd) (dispatch create_bucket t cmd)
  unfolding dispatch apply_create_bucket
  create_bucket-Alike cmd =
      let name : Text = bucket_name cmd.bucket cmd.bucket_meta in
      rw (h.buckets name) (
        ground (
          arith,
          h,
          buckets-SameState _ _ (
              insert-SameMap s.buckets t.buckets h.buckets name
                (record cmd.bucket_meta { name = name })),
        ))

  upsert-Alike :
      (cmd : MetadataCommand)
      → Alike (dispatch upsert_object_meta s cmd) (dispatch upsert_object_meta t cmd)
  unfolding dispatch apply_upsert_object
  upsert-Alike cmd =
      rw (check-same cmd.meta, apply_upsert_object)
        (ground (
          arith,
          h,
          objects-SameState _ _ (
              insert-SameMap s.objects t.objects h.objects
                (object_map_key cmd.meta.bucket cmd.meta.key)
                (record cmd.meta { state = object_state_committed })),
        ))

  stage-Alike :
      (cmd : MetadataCommand)
      → Alike (dispatch stage_object_meta s cmd) (dispatch stage_object_meta t cmd)
  unfolding dispatch apply_stage_object
  stage-Alike cmd =
      rw (check-same cmd.meta, apply_stage_object)
        (ground (
          arith,
          h,
          staged-SameState _ _ (
              insert-SameMap s.staged_objects t.staged_objects h.staged
                (object_map_key cmd.meta.bucket cmd.meta.key)
                (record cmd.meta { state = object_state_pending })),
        ))

  delete_staged-Alike :
      (cmd : MetadataCommand)
      → Alike (dispatch delete_staged_object_meta s cmd) (dispatch delete_staged_object_meta t cmd)
  unfolding dispatch apply_delete_staged
  delete_staged-Alike cmd =
      let k : Text = object_map_key cmd.bucket cmd.key in
      rw (h.staged k, apply_delete_staged)
        (ground (
          arith,
          h,
          staged-SameState _ _ (erase-SameMap s.staged_objects t.staged_objects h.staged k),
        ))

  delete_object-Alike :
      (cmd : MetadataCommand)
      → Alike (dispatch delete_object_meta s cmd) (dispatch delete_object_meta t cmd)
  unfolding dispatch apply_delete_object
  delete_object-Alike cmd =
      let k : Text = object_map_key cmd.bucket cmd.key in
      rw (h.objects k, apply_delete_object)
        (ground (arith, h, objects-SameState _ _ (erase-SameMap s.objects t.objects h.objects k)))

  set_ref-SameState :
      (k : Text) (ref : MetadataBlobRef)
      → SameState
          (record s { blob_refs = insert k ref s.blob_refs })
          (record t { blob_refs = insert k ref t.blob_refs })
  set_ref-SameState k ref = refs-SameState _ _ (insert-SameMap s.blob_refs t.blob_refs h.refs k ref)

  create_blob_ref-Alike :
      (cmd : MetadataCommand)
      → Alike (dispatch create_blob_ref s cmd) (dispatch create_blob_ref t cmd)
  unfolding dispatch apply_create_blob_ref
  create_blob_ref-Alike cmd = elim (Option-cases (lookup cmd.hash t.blob_refs)) [
    | inl e ↦ ground (arith, h, h.refs cmd.hash, set_ref-SameState cmd.hash (new_blob_ref cmd))
    | inr (ref, e) ↦ ground (arith, h, h.refs cmd.hash, set_ref-SameState cmd.hash (increment ref))
  ]

  increase-Alike :
      (cmd : MetadataCommand)
      → Alike (dispatch increase_blob_ref s cmd) (dispatch increase_blob_ref t cmd)
  unfolding dispatch apply_increase_blob_ref
  increase-Alike cmd = elim (Option-cases (lookup cmd.hash t.blob_refs)) [
    | inl e ↦ ground (arith, h, h.refs cmd.hash)
    | inr (ref, e) ↦ ground (arith, h, h.refs cmd.hash, set_ref-SameState cmd.hash (increment ref))
  ]

  placements-Alike :
      (cmd : MetadataCommand)
      → Alike
          (dispatch update_blob_ref_placements s cmd)
          (dispatch update_blob_ref_placements t cmd)
  unfolding dispatch apply_update_placements
  placements-Alike cmd = elim (Option-cases (lookup cmd.hash t.blob_refs)) [
    | inl e ↦ ground (arith, h, h.refs cmd.hash)
    | inr (ref, e) ↦ ground (
      arith,
      h,
      h.refs cmd.hash,
      set_ref-SameState cmd.hash (record ref { shard_placements = clone cmd.shard_placements }),
    )
  ]

  decrease-Alike :
      (cmd : MetadataCommand)
      → Alike (dispatch decrease_blob_ref s cmd) (dispatch decrease_blob_ref t cmd)
  unfolding dispatch apply_decrease_blob_ref
  decrease-Alike cmd = elim (Option-cases (lookup cmd.hash t.blob_refs)) [
    | inl e ↦ ground (arith, h, h.refs cmd.hash)
    | inr (ref, e) ↦ ground (
      arith,
      h,
      h.refs cmd.hash,
      set_ref-SameState cmd.hash (record ref { ref_count = int64_sub ref.ref_count (pos 1) }),
      refs-SameState _ _ (erase-SameMap s.blob_refs t.blob_refs h.refs cmd.hash),
    )
  ]

  module _ (v : Inv s) (w : Inv t) where
    delete_bucket-SameState :
        (bucket : Text)
        → SameState
            (record s {
              buckets = erase bucket s.buckets;
              objects = erase_where (in_bucket bucket) s.objects;
              staged_objects = erase_where (in_bucket bucket) s.staged_objects;
            })
            (record t {
              buckets = erase bucket t.buckets;
              objects = erase_where (in_bucket bucket) t.objects;
              staged_objects = erase_where (in_bucket bucket) t.staged_objects;
            })
    delete_bucket-SameState bucket = record {
      closed = h.closed;
      buckets = erase-SameMap s.buckets t.buckets h.buckets bucket;
      objects =
          erase_where-SameMap s.objects t.objects h.objects (in_bucket bucket) v.unique_objects
            w.unique_objects;
      staged =
          erase_where-SameMap s.staged_objects t.staged_objects h.staged (in_bucket bucket)
            v.unique_staged w.unique_staged;
      refs = h.refs;
    }

    delete_bucket-Alike :
        (cmd : MetadataCommand)
        → Alike (dispatch delete_bucket s cmd) (dispatch delete_bucket t cmd)
    unfolding dispatch apply_delete_bucket
    delete_bucket-Alike cmd =
        rw (h.buckets cmd.bucket) (ground (arith, h, delete_bucket-SameState cmd.bucket))

    dispatch-Alike :
        (type_ : CommandType) (cmd : MetadataCommand)
        → Alike (dispatch type_ s cmd) (dispatch type_ t cmd)
    dispatch-Alike create_bucket cmd = create_bucket-Alike cmd
    dispatch-Alike delete_bucket cmd = delete_bucket-Alike cmd
    dispatch-Alike stage_object_meta cmd = stage-Alike cmd
    dispatch-Alike upsert_object_meta cmd = upsert-Alike cmd
    dispatch-Alike delete_staged_object_meta cmd = delete_staged-Alike cmd
    dispatch-Alike delete_object_meta cmd = delete_object-Alike cmd
    dispatch-Alike create_blob_ref cmd = create_blob_ref-Alike cmd
    dispatch-Alike update_blob_ref_placements cmd = placements-Alike cmd
    dispatch-Alike increase_blob_ref cmd = increase-Alike cmd
    dispatch-Alike decrease_blob_ref cmd = decrease-Alike cmd
    dispatch-Alike (unknown_command name) cmd = unfold dispatch in (h, refl, refl)

    -- Two well-formed machines with the same entries answer a command with the same envelope, and
    -- have the same entries afterwards.
    pub update-same :
        (cmd : MetadataCommand)
        → SameState (update_command s cmd).0 (update_command t cmd).0
          × ((update_command s cmd).1 ≡ (update_command t cmd).1)
    unfolding update_command apply_metadata_command
    update-same cmd = ground (arith, h, h.closed, dispatch-Alike cmd.type_ cmd)
