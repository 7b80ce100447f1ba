-- ===== src/Metadata/Agreement/Differences.antt =====
-- Where the metadata stores of internal/metadata do not agree.
use filpe.Prelude.{
  ◌≡◌, refl, sym, ◌∙◌, ap, false, none, some, ==_iff, list_equality, number_equality, arith,
  Option-cases, inl, inr,
}
use filpe.Prelude.Results.{ok, err}
use filpe.Prelude.Int.{pos}
use filpe.Prelude.Texts.{Text, trim_space, is_empty}
use filpe.Prelude.Maps.{lookup, insert, lookup-insert}
use filpe.Raft.Commands.{
  State, apply_metadata_command, invalid_name, apply_create_blob_ref, apply_decrease_blob_ref,
  dispatch,
}
use filpe.Metadata
use filpe.Metadata.{MetadataError, BlobRef, Memory, object_id}
use filpe.Metadata.RaftStore
use filpe.Metadata.RaftStore.{from_raft_blob_ref}
use filpe.Metadata.BlobRefs
use filpe.Metadata.Agreement.{Agrees, stored, freed_path}
use filpe.Raft.Commands.{increment}
use filpe.Prelude.Words.{int64_add}
use filpe.Metadata.Agreement.Refs.{unstored}

-- Where the stores differ: CreateBlobRef of a hash that has a reference counts it up in the
-- replicated store and changes nothing in memory, and DecreaseBlobRef of a hash without a
-- reference succeeds in the replicated store and fails in memory.
pub stores_differ :
    (s : State) (m : Memory) (ref old : BlobRef) (hash : Text)
    → Agrees s m
    → is_empty (trim_space ref.hash) ≡ false
    → is_empty (trim_space ref.path) ≡ false
    → lookup ref.hash m.blobs ≡ some old
    → is_empty (trim_space hash) ≡ false
    → lookup hash m.blobs ≡ none
    → (stored (lookup ref.hash (RaftStore.create_blob_ref s ref).0.blob_refs)
        ≡ some (record old { ref_count = int64_add old.ref_count (pos 1) }))
      × (BlobRefs.create_blob_ref m ref ≡ (m, ok tt))
      × (freed_path (RaftStore.decrease_blob_ref s hash).1 ≡ ok none)
      × (freed_path (BlobRefs.decrease_blob_ref m hash).1 ≡ err Metadata.object_not_found)
unfolding RaftStore.create_blob_ref BlobRefs.create_blob_ref RaftStore.decrease_blob_ref
    BlobRefs.decrease_blob_ref apply_metadata_command dispatch apply_create_blob_ref
    apply_decrease_blob_ref invalid_name from_raft_blob_ref RaftStore.propose
    RaftStore.map_raft_error
stores_differ s m ref old hash h named pathed there named2 missing =
    elim (Option-cases (lookup ref.hash s.blob_refs)) [
      | inl gone ↦
          let bad : none ≡ some old = ap stored (sym gone) ∙ h.blobs ref.hash ∙ there in
          absurd (ground arith)
      | inr (r, here) ↦
          let stored_here : some (from_raft_blob_ref r) ≡ some old =
            ap stored (sym here) ∙ h.blobs ref.hash ∙ there in
          let same : from_raft_blob_ref r ≡ old = ground arith in
          let away = unstored (lookup hash s.blob_refs) (h.blobs hash ∙ missing) in
          let raised : lookup ref.hash (insert ref.hash (increment r) s.blob_refs)
              ≡ some (increment r) =
            lookup-insert ref.hash ref.hash (increment r) s.blob_refs
            ∙ (rw ((==_iff ref.hash ref.hash).1 refl) refl) in
          let counted : from_raft_blob_ref (increment r)
              ≡ (record old { ref_count = int64_add old.ref_count (pos 1) }) =
            ap (λ (q : BlobRef). record q { ref_count = int64_add q.ref_count (pos 1) }) same in
          (
            (rw (named, pathed, here, apply_create_blob_ref) (ap stored raised ∙ ap some counted)),
            (rw there refl),
            (rw (named2, away, apply_decrease_blob_ref) refl),
            (rw (missing, BlobRefs.decrease_blob_ref) refl),
          )
    ]
