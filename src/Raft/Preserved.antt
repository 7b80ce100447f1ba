-- ===== src/Raft/Preserved.antt =====
-- Every command of the state machine (internal/raft) keeps the maps in order.
use filpe.Prelude.{
  ◌≡◌, refl, inl, inr, List, arith, ◌||◌, Bool-cases, Option-cases, list_equality, number_equality,
}
use filpe.Prelude.Int.{pos, ltb_ℤ}
use filpe.Prelude.Texts.{Text, is_empty, trim_space}
use filpe.Prelude.Maps.{
  Map, lookup, has, Unique, Each, insert-Unique, erase-Unique, erase_where-Unique, insert-Each,
  erase-Each, Each-mono,
}
use filpe.Model.{ShardPlacement, Bucket, ObjectMeta, object_state_pending, object_state_committed}
use filpe.Raft.Types.{
  Code, success, CommandType, create_bucket, delete_bucket, stage_object_meta, upsert_object_meta,
  delete_staged_object_meta, delete_object_meta, create_blob_ref, update_blob_ref_placements,
  increase_blob_ref, decrease_blob_ref, unknown_command, MetadataBlobRef, MetadataCommand,
}
use filpe.Raft.Commands.{
  State, invalid_name, object_map_key, bucket_name, set_ref, apply_create_bucket,
  apply_delete_bucket, check_object, apply_upsert_object, apply_stage_object, apply_delete_staged,
  apply_delete_object, apply_create_blob_ref, apply_increase_blob_ref, dispatch,
  apply_update_placements, apply_decrease_blob_ref, apply_metadata_command, new_blob_ref,
}
use filpe.Raft.Invariant.{Inv, IsPlaced, insert-IsPlaced, erase-IsPlaced}

module _ (s : State) (v : Inv s) where
  create_bucket-Inv : (bucket : Text) (meta : Bucket) → Inv (apply_create_bucket s bucket meta).0
  unfolding apply_create_bucket
  create_bucket-Inv bucket meta = elim (Bool-cases (invalid_name name)) [
    | inl bad ↦ rw bad v
    | inr good ↦ elim (Bool-cases (has name s.buckets)) [
      | inl old ↦ rw (good, old) v
      | inr new ↦
          rw (good, new)
            (record {
              unique_buckets = insert-Unique name _ s.buckets v.unique_buckets;
              unique_objects = v.unique_objects;
              unique_staged = v.unique_staged;
              unique_refs = v.unique_refs;
              buckets =
                  insert-Each name _ s.buckets (record { same = refl; usable = good }) v.buckets;
              objects =
                  Each-mono s.objects (λ k m. insert-IsPlaced _ s.buckets name k _ m) v.objects;
              staged =
                  Each-mono s.staged_objects (λ k m. insert-IsPlaced _ s.buckets name k _ m)
                    v.staged;
              refs = v.refs;
            })
    ]
  ]
    where
      name : Text
      name = bucket_name bucket meta

  delete_bucket-Inv : (bucket : Text) → Inv (apply_delete_bucket s bucket).0
  unfolding apply_delete_bucket
  delete_bucket-Inv bucket = elim (Bool-cases (invalid_name bucket)) [
    | inl bad ↦ rw bad v
    | inr good ↦ elim (Bool-cases (has bucket s.buckets)) [
      | inr missing ↦ rw (good, missing) v
      | inl there ↦
          rw (good, there)
            (record {
              unique_buckets = erase-Unique bucket s.buckets v.unique_buckets;
              unique_objects = erase_where-Unique _ s.objects v.unique_objects;
              unique_staged = erase_where-Unique _ s.staged_objects v.unique_staged;
              unique_refs = v.unique_refs;
              buckets = erase-Each bucket s.buckets v.buckets;
              objects = erase-IsPlaced _ s.buckets bucket s.objects v.unique_objects v.objects;
              staged = erase-IsPlaced _ s.buckets bucket s.staged_objects v.unique_staged v.staged;
              refs = v.refs;
            })
    ]
  ]

  -- A meta that passes the checks is placed under its key.
  check-IsPlaced :
      (state : Text) (meta : ObjectMeta)
      → check_object s meta ≡ success
      → IsPlaced state s.buckets
          (object_map_key meta.bucket meta.key)
          (record meta { state = state })
  unfolding check_object
  check-IsPlaced state meta h = ground arith

  objects-Inv :
      (m : Map Text ObjectMeta)
      → Unique m
      → Each (IsPlaced object_state_committed s.buckets) m
      → Inv (record s { objects = m })
  objects-Inv m u e = record {
    unique_buckets = v.unique_buckets;
    unique_objects = u;
    unique_staged = v.unique_staged;
    unique_refs = v.unique_refs;
    buckets = v.buckets;
    objects = e;
    staged = v.staged;
    refs = v.refs;
  }

  staged-Inv :
      (m : Map Text ObjectMeta)
      → Unique m
      → Each (IsPlaced object_state_pending s.buckets) m
      → Inv (record s { staged_objects = m })
  staged-Inv m u e = record {
    unique_buckets = v.unique_buckets;
    unique_objects = v.unique_objects;
    unique_staged = u;
    unique_refs = v.unique_refs;
    buckets = v.buckets;
    objects = v.objects;
    staged = e;
    refs = v.refs;
  }

  refs-Inv :
      (m : Map Text MetadataBlobRef)
      → Unique m
      → Each (λ k ref. ref.hash ≡ k) m
      → Inv (record s { blob_refs = m })
  refs-Inv m u e = record {
    unique_buckets = v.unique_buckets;
    unique_objects = v.unique_objects;
    unique_staged = v.unique_staged;
    unique_refs = u;
    buckets = v.buckets;
    objects = v.objects;
    staged = v.staged;
    refs = e;
  }

  upsert-Inv : (meta : ObjectMeta) → Inv (apply_upsert_object s meta).0
  unfolding apply_upsert_object
  upsert-Inv meta = go (check_object s meta) refl
    where
      go : (c : Code) → check_object s meta ≡ c → Inv (apply_upsert_object s meta).0
      go success e =
          rw (e, apply_upsert_object)
            (objects-Inv _ (insert-Unique _ _ s.objects v.unique_objects)
              (insert-Each _ _ s.objects (check-IsPlaced object_state_committed meta e) v.objects))
      go _ e = rw (e, apply_upsert_object) v

  stage-Inv : (meta : ObjectMeta) → Inv (apply_stage_object s meta).0
  unfolding apply_stage_object
  stage-Inv meta = go (check_object s meta) refl
    where
      go : (c : Code) → check_object s meta ≡ c → Inv (apply_stage_object s meta).0
      go success e =
          rw (e, apply_stage_object)
            (staged-Inv _ (insert-Unique _ _ s.staged_objects v.unique_staged) (
              insert-Each _ _ s.staged_objects (check-IsPlaced object_state_pending meta e)
                v.staged))
      go _ e = rw (e, apply_stage_object) v

  delete_staged-Inv : (bucket key : Text) → Inv (apply_delete_staged s bucket key).0
  unfolding apply_delete_staged
  delete_staged-Inv bucket key = ground (
    arith,
    staged-Inv _ (erase-Unique (object_map_key bucket key) s.staged_objects v.unique_staged)
        (erase-Each (object_map_key bucket key) s.staged_objects v.staged),
  )

  delete_object-Inv : (bucket key : Text) → Inv (apply_delete_object s bucket key).0
  unfolding apply_delete_object
  delete_object-Inv bucket key = ground (
    arith,
    objects-Inv _ (erase-Unique (object_map_key bucket key) s.objects v.unique_objects)
        (erase-Each (object_map_key bucket key) s.objects v.objects),
  )

  set_ref-Inv : (hash : Text) (ref : MetadataBlobRef) → ref.hash ≡ hash → Inv (set_ref s hash ref)
  set_ref-Inv hash ref e =
      refs-Inv _ (insert-Unique hash ref s.blob_refs v.unique_refs)
        (insert-Each hash ref s.blob_refs e v.refs)

  create_blob_ref-Inv : (cmd : MetadataCommand) → Inv (apply_create_blob_ref s cmd).0
  unfolding apply_create_blob_ref
  create_blob_ref-Inv cmd =
      elim (Bool-cases (invalid_name cmd.hash || is_empty (trim_space cmd.path))) [
        | inl bad ↦ rw bad v
        | inr good ↦ elim (Option-cases (lookup cmd.hash s.blob_refs)) [
          | inl e ↦
              rw (good, e) (set_ref-Inv cmd.hash (new_blob_ref cmd) (unfold new_blob_ref in refl))
          | inr (ref, e) ↦ rw (good, e) (set_ref-Inv cmd.hash _ (v.refs cmd.hash ref e))
        ]
      ]

  increase_blob_ref-Inv : (hash : Text) → Inv (apply_increase_blob_ref s hash).0
  unfolding apply_increase_blob_ref
  increase_blob_ref-Inv hash = elim (Bool-cases (invalid_name hash)) [
    | inl bad ↦ rw bad v
    | inr good ↦ elim (Option-cases (lookup hash s.blob_refs)) [
      | inl e ↦ rw (good, e) v
      | inr (ref, e) ↦ rw (good, e) (set_ref-Inv hash _ (v.refs hash ref e))
    ]
  ]

  update_placements-Inv :
      (hash : Text) (placements : List ShardPlacement)
      → Inv (apply_update_placements s hash placements).0
  unfolding apply_update_placements
  update_placements-Inv hash placements = elim (Bool-cases (invalid_name hash)) [
    | inl bad ↦ rw bad v
    | inr good ↦ elim (Option-cases (lookup hash s.blob_refs)) [
      | inl e ↦ rw (good, e) v
      | inr (ref, e) ↦ rw (good, e) (set_ref-Inv hash _ (v.refs hash ref e))
    ]
  ]

  decrease_blob_ref-Inv : (hash : Text) → Inv (apply_decrease_blob_ref s hash).0
  unfolding apply_decrease_blob_ref
  decrease_blob_ref-Inv hash = elim (Bool-cases (invalid_name hash)) [
    | inl bad ↦ rw bad v
    | inr good ↦ elim (Option-cases (lookup hash s.blob_refs)) [
      | inl e ↦ rw (good, e) v
      | inr (ref, e) ↦ elim (Bool-cases (ltb_ℤ (pos 1) ref.ref_count)) [
        | inl more ↦ rw (good, e, more) (set_ref-Inv hash _ (v.refs hash ref e))
        | inr last ↦
            rw (good, e, last)
              (refs-Inv _ (erase-Unique hash s.blob_refs v.unique_refs)
                (erase-Each hash s.blob_refs v.refs))
      ]
    ]
  ]

  dispatch-Inv : (type_ : CommandType) (cmd : MetadataCommand) → Inv (dispatch type_ s cmd).0
  unfolding dispatch
  dispatch-Inv create_bucket cmd = create_bucket-Inv cmd.bucket cmd.bucket_meta
  dispatch-Inv delete_bucket cmd = delete_bucket-Inv cmd.bucket
  dispatch-Inv stage_object_meta cmd = stage-Inv cmd.meta
  dispatch-Inv upsert_object_meta cmd = upsert-Inv cmd.meta
  dispatch-Inv delete_staged_object_meta cmd = delete_staged-Inv cmd.bucket cmd.key
  dispatch-Inv delete_object_meta cmd = delete_object-Inv cmd.bucket cmd.key
  dispatch-Inv create_blob_ref cmd = create_blob_ref-Inv cmd
  dispatch-Inv update_blob_ref_placements cmd = update_placements-Inv cmd.hash cmd.shard_placements
  dispatch-Inv increase_blob_ref cmd = increase_blob_ref-Inv cmd.hash
  dispatch-Inv decrease_blob_ref cmd = decrease_blob_ref-Inv cmd.hash
  dispatch-Inv (unknown_command name) cmd = v

  pub apply-Inv : (cmd : MetadataCommand) → Inv (apply_metadata_command s cmd).0
  unfolding apply_metadata_command
  apply-Inv cmd = dispatch-Inv cmd.type_ cmd
