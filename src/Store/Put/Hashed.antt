-- ===== src/Store/Put/Hashed.antt =====
-- The blob of a put has the hash of its content (prepareBlob of internal/store/blob.go).
use filpe.Prelude.{
  ℕ, ◌≡◌, refl, Bool, true, false, [], ◌∷◌, if◌then◌else◌, Bool-cases, inl, inr, ◌==◌, ==_iff,
  list_equality, number_equality,
}
use filpe.Prelude.Results.{Result, ok, err}
use filpe.Prelude.Texts.{Text}
use filpe.Metadata.{BlobRef}
use filpe.Metadata.RaftStore
use filpe.Engine.Layouts.{EngineConfig, BlobInfo}
use filpe.Store.{engine_failed}
use filpe.Store.World.{World, Errors, pure, fail, read_meta, and_then}
use filpe.Store.Put.{PutOptions, StagedObject, blob_of_ref, delete_staged_object_meta}
use filpe.Store.Put.Steps.{PreparedBlob, prepare_with, create_blob, prepare_blob, prepare_put_blob}
use filpe.Store.Put.Stored.{Gives, Gives-any, Gives-then, Gives-or_else}

module _ (c : EngineConfig) (now : ℕ) (bucket key : Text) (opts : PutOptions)
    (staged : StagedObject) where
  -- The blob has the hash of the content.
  abbrev pub Hashed : PreparedBlob → World → Type 0
  Hashed prepared w = prepared.blob.hash ≡ staged.hash

  checked-Hashed :
      (r : World × Result Errors BlobInfo)
      → Gives Hashed (
          and_then r (λ blob.
            if blob.hash == staged.hash
            then pure (record { blob = blob; ref_exists = false; created_blob = true })
            else fail (engine_failed ∷ [])))
  unfolding Gives
  checked-Hashed (w, err e) = tt
  checked-Hashed (w, ok blob) = elim (Bool-cases (blob.hash == staged.hash)) [
    | inl same ↦ rw same ((==_iff blob.hash staged.hash).0 same)
    | inr other ↦ rw other tt
  ]

  prepare_with-Hashed :
      (found : BlobRef × Bool) (w : World) → Gives Hashed (prepare_with c now key staged found w)
  unfolding Gives prepare_with create_blob blob_of_ref
  prepare_with-Hashed (ref, true) w = refl
  prepare_with-Hashed (ref, false) w = checked-Hashed _

  pub prepare-Hashed : (w : World) → Gives Hashed (prepare_put_blob c now bucket key staged w)
  unfolding prepare_put_blob prepare_blob
  prepare-Hashed w =
      Gives-or_else Hashed (prepare_blob c now key staged w) (delete_staged_object_meta bucket key)
        (Gives-then (λ a w'. Unit {0}) Hashed
          (read_meta (λ s. RaftStore.get_blob_ref s staged.hash) w) _ (Gives-any _)
          (λ found w' u. prepare_with-Hashed found w'))
