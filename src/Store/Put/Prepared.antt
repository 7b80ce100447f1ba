-- ===== src/Store/Put/Prepared.antt =====
-- The calls of a put that change references and shards, and keep every object's bytes
-- (internal/store/blob.go).
use filpe.Prelude.{
  ℕ, ◌-◌, ◌≤◌, ◌<◌, ◌≡◌, refl, ap, ◌∙◌, Bool, true, false, some, [], arith, list_equality,
  number_equality, Option-cases, Bool-cases, inl, inr, ltb,
}
use filpe.Prelude.Results.{Result, ok, err}
use filpe.Prelude.Int.{pos}
use filpe.Prelude.Texts.{Text}
use filpe.Prelude.Words.{int64_sub, int64_sub-pos}
use filpe.Prelude.Maps.{lookup, erase}
use filpe.Raft.Types.{MetadataBlobRef}
use filpe.Raft.Commands.{
  State, apply_metadata_command, dispatch, apply_decrease_blob_ref, invalid_name, set_ref,
}
use filpe.Metadata.{MetadataError, bad_request}
use filpe.Metadata.RaftStore
use filpe.Engine.Layouts.{EngineConfig, Shards}
use filpe.Store.Put.Effects.{View, uses, counted, IsSafe, Spare, set_ref-IsSafe, erase_ref-IsSafe}

abbrev pub view_of : State → Shards → View
view_of s shards = record { objects = s.objects; refs = s.blob_refs; shards = shards }

module _ (c : EngineConfig) (s : State) (shards : Shards) (hash : Text) where
  -- What DecreaseBlobRef leaves, and when it frees the blob.
  pub record Decreased : Type 0 where
    pub safe : IsSafe c (view_of (RaftStore.decrease_blob_ref s hash).0 shards)
    pub same_objects : (RaftStore.decrease_blob_ref s hash).0.objects ≡ s.objects
    pub frees :
        (path : Text)
        → (RaftStore.decrease_blob_ref s hash).1 ≡ ok (path, true)
        → uses hash s.objects ≡ 0

  module _ (safe : IsSafe c (view_of s shards)) (spare : Spare (view_of s shards) hash) where
    -- The three ways that it goes.
    decrease-blank :
        invalid_name hash ≡ true → RaftStore.decrease_blob_ref s hash ≡ (s, err bad_request)
    unfolding RaftStore.decrease_blob_ref apply_metadata_command dispatch apply_decrease_blob_ref
    decrease-blank blank = rw blank

    module _ (ref : MetadataBlobRef) (n : ℕ) (named : invalid_name hash ≡ false)
        (found : lookup hash s.blob_refs ≡ some ref) (is_n : ref.ref_count ≡ pos n) where
      decrease-last :
          n ≤ 1
          → RaftStore.decrease_blob_ref s hash
            ≡ (record s { blob_refs = erase hash s.blob_refs }, ok (ref.path, true))
      unfolding RaftStore.decrease_blob_ref apply_metadata_command dispatch apply_decrease_blob_ref
      decrease-last last = ground arith

      decrease-more :
          1 < n
          → RaftStore.decrease_blob_ref s hash ≡ (
            set_ref s hash (record ref { ref_count = int64_sub ref.ref_count (pos 1) }),
            ok ([], false),
          )
      unfolding RaftStore.decrease_blob_ref apply_metadata_command dispatch apply_decrease_blob_ref
      decrease-more more = ground arith

    decreased :
        (r : State × Result MetadataError (Text × Bool))
        → RaftStore.decrease_blob_ref s hash ≡ r
        → IsSafe c (view_of r.0 shards)
        → r.0.objects ≡ s.objects
        → ((path : Text) → r.1 ≡ ok (path, true) → uses hash s.objects ≡ 0)
        → Decreased
    decreased r e kept same frees = record {
      safe = rw e kept;
      same_objects = rw e same;
      frees = λ path freed. frees path (rw e at freed);
    }

    pub decrease-Decreased : Decreased
    decrease-Decreased = elim (Bool-cases (invalid_name hash)) [
      | inl blank ↦
          decreased _ (decrease-blank blank) safe refl (λ path freed. absurd (ground arith))
      | inr named ↦ elim (Option-cases (lookup hash s.blob_refs)) [
        | inl none_there ↦ absurd (unfold counted in ground (arith, spare))
        | inr (ref, found) ↦
            (let (n, is_n, some_n, small) = safe.numbers hash ref found in
              let counted_n : counted hash s.blob_refs ≡ n = unfold counted in ground arith in
              elim (Bool-cases (ltb 1 n)) [
                | inl more ↦
                    decreased _ (decrease-more ref n named found is_n (ground arith))
                      (set_ref-IsSafe c (view_of s shards) hash
                        (record ref { ref_count = int64_sub ref.ref_count (pos 1) }) (n - 1) safe
                        (ap (λ z. int64_sub z (pos 1)) is_n ∙ int64_sub-pos n 1 some_n small)
                        (ground arith) (omega arith) (ground (arith, counted_n))
                        (λ used. safe.intact hash used ref found))
                      refl (λ path freed. absurd (ground arith))
                | inr last ↦
                    (let unused : uses hash s.objects ≡ 0 = ground (arith, counted_n) in
                      decreased _ (decrease-last ref n named found is_n (ground arith))
                        (erase_ref-IsSafe c (view_of s shards) hash safe unused) refl
                        (λ path freed. unused))
              ])
      ]
    ]
