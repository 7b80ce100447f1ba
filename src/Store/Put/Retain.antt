-- ===== src/Store/Put/Retain.antt =====
-- The reference of a put's blob (retainBlob of internal/store/blob.go).
use filpe.Prelude.{
  ℕ, ◌+◌, ◌≤◌, ◌<◌, ◌≡◌, refl, ap, ◌∙◌, Bool, true, false, ◌||◌, not, none, some, arith,
  if◌then◌else◌, Bool-cases, inl, inr, ◌⊎◌, ==-refl, list_equality, number_equality,
}
use filpe.Prelude.Results.{Result, ok, err}
use filpe.Prelude.Int.{pos}
use filpe.Prelude.Texts.{Text, trim_space, is_empty}
use filpe.Prelude.Words.{two_63, int64_add, int64_add-pos}
use filpe.Prelude.Maps.{lookup, insert, lookup-insert}
use filpe.Raft.Types.{MetadataBlobRef}
use filpe.Raft.Commands.{
  State, clone, set_ref, increment, new_blob_ref, apply_metadata_command, dispatch,
  apply_create_blob_ref, apply_increase_blob_ref, invalid_name,
}
use filpe.Metadata.{MetadataError, BlobRef, bad_request}
use filpe.Metadata.RaftStore
use filpe.Engine.Layouts.{EngineConfig}
use filpe.Store.World.{World, Errors, pure, call_meta, and_then, meta_call, mapped, next, faulty}
use filpe.Store.Put.{BlobRefMutation, unchanged, increased, created}
use filpe.Store.Put.Steps.{PreparedBlob, undoes, create_ref, increase_ref, retain_blob}
use filpe.Store.Put.Effects.{
  View, view, uses, counted, IsIntact, BlobIntact, set_ref-IsSafe, counted-insert,
}
use filpe.Store.Put.Rollback.{IsReady, IsUndoable, Ends, unused_of_fresh}

module _ (c : EngineConfig) (same : Bool) where
  -- What holds once the blob is retained.
  pub record IsRetained (before after : View) (hash : Text) (prepared : PreparedBlob)
      (mutation : BlobRefMutation) : Type 0 where
    pub undoable : IsUndoable c after hash prepared mutation
    pub kept : BlobIntact c after hash
    pub objects : after.objects ≡ before.objects
    pub covers : (undoes mutation ≡ true) ⊎ (same ≡ true)

  -- A reference that is set to a count above the uses, with the blob in place.
  set_ref-IsRetained :
      (v : View) (hash : Text) (prepared : PreparedBlob) (mutation : BlobRefMutation)
      (ref : MetadataBlobRef) (n : ℕ)
      → undoes mutation ≡ true
      → IsReady c v hash prepared
      → ref.ref_count ≡ pos n
      → n < two_63
      → uses hash v.objects + 1 ≤ n
      → IsIntact c hash (v.shards ref.path hash)
      → IsRetained v (record v { refs = insert hash ref v.refs }) hash prepared mutation
  set_ref-IsRetained v hash prepared mutation ref n counts ready is_n small more whole = record {
    undoable = record {
      safe =
          set_ref-IsSafe c v hash ref n ready.safe is_n (omega arith) small (omega arith)
            (λ u. whole);
      trimmed = ready.trimmed;
      spare = λ e. ground (arith, counted-insert c hash hash ref v.refs, ==-refl hash);
      blob_hash = λ e. ready.blob_hash;
      unused = λ e. unused_of_fresh c v hash ready.safe (ready.fresh (ready.created_fresh e));
    };
    kept = λ other there.
        let same : ref ≡ other = ground (arith, lookup-insert hash hash ref v.refs, ==-refl hash) in
        rw (← same) whole;
    objects = refl;
    covers = inl counts;
  }

  -- What the two calls leave.
  create-leaves :
      (s : State) (ref : BlobRef)
      → lookup ref.hash s.blob_refs ≡ none
      → (RaftStore.create_blob_ref s ref ≡ (s, err bad_request))
        ⊎ ((made : MetadataBlobRef) × (RaftStore.create_blob_ref s ref
              ≡ (set_ref s ref.hash made, ok tt))
            × (made.ref_count ≡ pos 1)
            × (made.path ≡ ref.path))
  unfolding RaftStore.create_blob_ref apply_metadata_command dispatch apply_create_blob_ref
      new_blob_ref
  create-leaves s ref fresh =
      elim (Bool-cases (invalid_name ref.hash || is_empty (trim_space ref.path))) [
        | inl blank ↦ inl (rw blank)
        | inr named ↦ inr (
          record {
            hash = ref.hash;
            path = ref.path;
            shard_placements = clone ref.shard_placements;
            shard_checksums = clone ref.shard_checksums;
            shard_sizes = clone ref.shard_sizes;
            ref_count = pos 1;
            size = ref.size;
          },
          rw (named, fresh),
          refl,
          refl,
        )
      ]

  increase-leaves :
      (s : State) (hash : Text) (ref : MetadataBlobRef)
      → lookup hash s.blob_refs ≡ some ref
      → (RaftStore.increase_blob_ref s hash ≡ (s, err bad_request))
        ⊎ (RaftStore.increase_blob_ref s hash ≡ (set_ref s hash (increment ref), ok tt))
  unfolding RaftStore.increase_blob_ref apply_metadata_command dispatch apply_increase_blob_ref
  increase-leaves s hash ref found = elim (Bool-cases (invalid_name hash)) [
    | inl blank ↦ inl (rw blank)
    | inr named ↦ inr (rw (named, found))
  ]

  abbrev Retains : View → Text → PreparedBlob → World × Result Errors BlobRefMutation → Type 0
  Retains v hash prepared =
      Ends c (λ mutation w. IsRetained v (view w) hash prepared mutation) (λ w. view w ≡ v)

  module _ (hash : Text) (prepared : PreparedBlob) (mutation : BlobRefMutation) (w : World)
      (r : State × Result MetadataError (Unit {0})) where
    abbrev answered : World × Result Errors BlobRefMutation
    answered = and_then (record (next w) { meta = r.0 }, mapped r.1) (λ u. pure mutation)

    -- A call that reports an error changes nothing, one that does not sets the reference.
    failed-Retains : r ≡ (w.meta, err bad_request) → Retains (view w) hash prepared answered
    failed-Retains failed = rw failed refl

    done-Retains :
        (ref : MetadataBlobRef)
        → r ≡ (set_ref w.meta hash ref, ok tt)
        → IsRetained
            (view w)
            (record (view w) { refs = insert hash ref w.meta.blob_refs })
            hash
            prepared
            mutation
        → Retains (view w) hash prepared answered
    done-Retains ref done kept = rw done kept

  module _ (hash : Text) (prepared : PreparedBlob) (w : World)
      (ready : IsReady c (view w) hash prepared) where
    create-Retains :
        (b : Bool) (ref : BlobRef)
        → prepared.ref_exists ≡ false
        → ref.hash ≡ hash
        → ref.path ≡ prepared.blob.shard_dir
        → Retains
            (view w)
            hash
            prepared
            (and_then (meta_call b (λ s. RaftStore.create_blob_ref s ref) w) (λ u. pure created))
    create-Retains true ref new is_hash is_path = refl
    create-Retains false ref new is_hash is_path =
        let fresh = ready.fresh new in
        elim (create-leaves w.meta ref (rw is_hash fresh)) [
          | inl failed ↦
              failed-Retains hash prepared created w (RaftStore.create_blob_ref w.meta ref) failed
          | inr (made, done, one, at_path) ↦
              (let unused = unused_of_fresh c (view w) hash ready.safe fresh in
                let leaves : Text → State × Result MetadataError (Unit {0}) =
                  λ h. (set_ref w.meta h made, ok tt) in
                let done' = done ∙ ap leaves is_hash in
                done-Retains hash prepared created w (RaftStore.create_blob_ref w.meta ref) made
                  done'
                  (set_ref-IsRetained (view w) hash prepared created made 1 refl ready one
                    (omega arith) (omega arith) (rw (at_path, is_path) (ready.written new))))
        ]

    increase-Retains :
        (b : Bool)
        → counted hash w.meta.blob_refs + 1 < two_63
        → prepared.ref_exists ≡ true
        → Retains (view w) hash prepared (
            and_then
              (meta_call b (λ s. RaftStore.increase_blob_ref s hash) w)
              (λ u. pure increased))
    increase-Retains true room known = refl
    increase-Retains false room known =
        let (ref, found) = ready.known known in
        let (n, is_n, some_n, small) = ready.safe.numbers hash ref found in
        let counted_n : counted hash w.meta.blob_refs ≡ n = unfold counted in ground arith in
        elim (increase-leaves w.meta hash ref found) [
          | inl failed ↦
              failed-Retains hash prepared increased w (RaftStore.increase_blob_ref w.meta hash)
                failed
          | inr done ↦
              done-Retains hash prepared increased w (RaftStore.increase_blob_ref w.meta hash)
                (increment ref) done
                (set_ref-IsRetained (view w) hash prepared increased (increment ref) (n + 1) refl
                  ready
                  (ap (λ z. int64_add z (pos 1)) is_n
                    ∙ int64_add-pos n 1 (omega (arith, counted_n)))
                  (omega (arith, counted_n)) (omega (arith, counted_n, ready.safe.covered hash))
                  (ready.kept ref found))
        ]

    again-Retains :
        (again : Bool)
        → same ≡ again
        → counted hash w.meta.blob_refs + 1 < two_63
        → prepared.ref_exists ≡ true
        → Retains (view w) hash prepared ((if again then pure unchanged else increase_ref hash) w)
    unfolding increase_ref call_meta
    again-Retains true e room known = record {
      undoable = record {
        safe = ready.safe;
        trimmed = ready.trimmed;
        spare = λ e. absurd (ground arith);
        blob_hash = λ e. ready.blob_hash;
        unused = λ e. let new = ready.created_fresh e in absurd (ground arith);
      };
      kept = ready.kept;
      objects = refl;
      covers = inr e;
    }
    again-Retains false e room known = increase-Retains (faulty w.faults) room known

    retain-cases :
        (known : Bool)
        → prepared.ref_exists ≡ known
        → counted hash w.meta.blob_refs + 1 < two_63
        → Retains (view w) hash prepared (
            (if not known
                then create_ref hash prepared.blob
                else if same
                then pure unchanged
                else increase_ref hash)
              w)
    unfolding create_ref call_meta
    retain-cases false new room = create-Retains (faulty w.faults) _ new refl refl
    retain-cases true known room = again-Retains same refl room known

    -- The reference of the blob covers one object more, or the object had the blob before.
    pub retain_blob-Retains :
        counted hash w.meta.blob_refs + 1 < two_63
        → Retains (view w) hash prepared (retain_blob hash prepared same w)
    unfolding retain_blob
    retain_blob-Retains room = retain-cases prepared.ref_exists refl room
