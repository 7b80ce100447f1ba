-- ===== src/Store/Put/Rollback.antt =====
-- A put that fails before its commit is rolled back without losing an object's bytes
-- (internal/store/blob.go and put.go).
use filpe.Prelude.{
  ℕ, ◌≡◌, refl, ap, ◌∙◌, Bool, true, false, none, some, arith, list_equality, number_equality,
}
use filpe.Prelude.Results.{Result, ok, err}
use filpe.Prelude.Texts.{Text, trim_space}
use filpe.Prelude.Maps.{lookup}
use filpe.Raft.Types.{MetadataBlobRef}
use filpe.Engine.Layouts.{EngineConfig}
use filpe.Store.World.{World, M, Errors, and_then, otherwise, cleaned}
use filpe.Store.Put.{
  ExistingObject, BlobRefMutation, delete_blob, release_blob, delete_staged_object_meta,
}
use filpe.Store.Put.Steps.{
  PreparedBlob, undoes, when, rollback_blob_ref, cleanup_created_blob, delete_put_layout,
  restore_previous_layout, rollback_put, fail_put,
}
use filpe.Store.Put.Effects.{View, view, uses, counted, IsIntact, IsSafe, BlobIntact, Spare}
use filpe.Store.Put.Quiet.{delete_put_layout-Quiet, delete_staged-Quiet, restore-Quiet}
use filpe.Store.Put.Releases.{Kept, delete_blob-Kept, release_blob-Kept}

module _ (c : EngineConfig) where
  -- A prepared put of a blob, with what the metadata holds at that time.
  pub record IsReady (v : View) (hash : Text) (prepared : PreparedBlob) : Type 0 where
    pub safe : IsSafe c v
    pub trimmed : trim_space hash ≡ hash
    pub blob_hash : prepared.blob.hash ≡ hash
    pub created_fresh : prepared.created_blob ≡ true → prepared.ref_exists ≡ false
    pub fresh : prepared.ref_exists ≡ false → lookup hash v.refs ≡ none
    pub written :
        prepared.ref_exists ≡ false → IsIntact c hash (v.shards prepared.blob.shard_dir hash)
    pub known :
        prepared.ref_exists ≡ true → (ref : MetadataBlobRef) × (lookup hash v.refs ≡ some ref)
    pub kept : BlobIntact c v hash

  pub unused_of_fresh :
      (v : View) (hash : Text) → IsSafe c v → lookup hash v.refs ≡ none → uses hash v.objects ≡ 0
  unused_of_fresh v hash safe fresh = unfold counted in ground (arith, safe.covered hash)

  -- What a rollback may rely on.
  pub record IsUndoable (v : View) (hash : Text) (prepared : PreparedBlob)
      (mutation : BlobRefMutation) : Type 0 where
    pub safe : IsSafe c v
    pub trimmed : trim_space hash ≡ hash
    pub spare : undoes mutation ≡ true → Spare v hash
    pub blob_hash : prepared.created_blob ≡ true → prepared.blob.hash ≡ hash
    pub unused : prepared.created_blob ≡ true → uses hash v.objects ≡ 0

  pub when-Kept :
      (b : Bool) (m : M (Unit {0})) (w : World)
      → IsSafe c (view w)
      → (b ≡ true → Kept c (view w) (view (m w).0))
      → Kept c (view w) (view (when b m w).0)
  when-Kept true m w safe kept = kept refl
  when-Kept false m w safe kept = record { safe = safe; objects = refl }

  module _ (now : ℕ) (bucket key hash : Text) (prepared : PreparedBlob) (mutation : BlobRefMutation)
      (existing : ExistingObject) where
    pub rollback_put-IsSafe :
        (w : World)
        → IsUndoable (view w) hash prepared mutation
        → IsSafe c (view (rollback_put c now bucket key hash prepared mutation existing w).0)
    unfolding rollback_put rollback_blob_ref cleanup_created_blob
    rollback_put-IsSafe w u =
        let w1 = (delete_put_layout c now bucket key w).0 in
        let w2 = (delete_staged_object_meta bucket key w1).0 in
        let w3 = (restore_previous_layout c now bucket key existing w2).0 in
        let quiet : view w3 ≡ view w =
          restore-Quiet c now bucket key existing w2
          ∙ delete_staged-Quiet bucket key w1
          ∙ delete_put_layout-Quiet c now bucket key w in
        let released =
          when-Kept (undoes mutation) (release_blob hash) w3 (rw quiet u.safe)
            (λ e. release_blob-Kept c hash w3 u.trimmed (rw quiet u.safe) (rw quiet (u.spare e))) in
        let w4 = (when (undoes mutation) (release_blob hash) w3).0 in
        let deleted =
          when-Kept prepared.created_blob (delete_blob prepared.blob.shard_dir prepared.blob.hash)
            w4 released.safe
            (λ e.
              let same : w4.meta.objects ≡ w.meta.objects =
                released.objects ∙ ap (λ v. v.objects) quiet in
              delete_blob-Kept c prepared.blob.shard_dir prepared.blob.hash w4
                (rw (u.blob_hash e) u.trimmed) released.safe
                (rw (u.blob_hash e, same) (u.unused e))) in
        deleted.safe

  -- What a step ends in: a value with a property, or an error with another.
  abbrev pub Ends :
      {A : Type 0} → (A → World → Type 0) → (World → Type 0) → World × Result Errors A → Type 0
  Ends P Q (w, ok a) = P a w
  Ends P Q (w, err e) = Q w

  pub step-IsSafe :
      {A B : Type 0} (P : A → World → Type 0) (r : World × Result Errors A) (f : A → M B)
      → Ends P (λ w. IsSafe c (view w)) r
      → ((a : A) (w : World) → P a w → IsSafe c (view (f a w).0))
      → IsSafe c (view (and_then r f).0)
  step-IsSafe P (w, ok a) f ends go = go a w ends
  step-IsSafe P (w, err e) f ends go = ends

  pub or_else-IsSafe :
      {A : Type 0} (P : A → World → Type 0) (Q : World → Type 0) (r : World × Result Errors A)
      (handle : Errors → M A)
      → Ends P Q r
      → ((e : Errors) (w : World) → Q w → Ends P (λ w'. IsSafe c (view w')) (handle e w))
      → Ends P (λ w'. IsSafe c (view w')) (otherwise r handle)
  or_else-IsSafe P Q (w, ok a) handle ends go = ends
  or_else-IsSafe P Q (w, err e) handle ends go = go e w ends

  -- A clean-up always ends in an error.
  pub cleaned-Ends :
      {A : Type 0} (P : A → World → Type 0) (r : World × Result Errors (Unit {0})) (e : Errors)
      → IsSafe c (view r.0)
      → Ends P (λ w. IsSafe c (view w)) (cleaned r e)
  cleaned-Ends P (w, ok u) e safe = safe
  cleaned-Ends P (w, err f) e safe = safe

  pub quiet-Ends :
      {A : Type 0} (v : View) (r : World × Result Errors A)
      → view r.0 ≡ v
      → Ends (λ a w. view w ≡ v) (λ w. view w ≡ v) r
  quiet-Ends v (w, ok a) same = same
  quiet-Ends v (w, err e) same = same

  pub quiet-EndsSafe :
      {A : Type 0} (v : View) (r : World × Result Errors A)
      → view r.0 ≡ v
      → IsSafe c v
      → Ends (λ a w. view w ≡ v) (λ w. IsSafe c (view w)) r
  quiet-EndsSafe v (w, ok a) same safe = same
  quiet-EndsSafe v (w, err e) same safe = rw same safe

  pub IsSafe-Ends :
      {A : Type 0} (r : World × Result Errors A)
      → IsSafe c (view r.0)
      → Ends (λ a w. IsSafe c (view w)) (λ w. IsSafe c (view w)) r
  IsSafe-Ends (w, ok a) safe = safe
  IsSafe-Ends (w, err e) safe = safe

  pub fail_put-Ends :
      {A : Type 0} (P : A → World → Type 0) (now : ℕ) (bucket key hash : Text)
      (prepared : PreparedBlob) (mutation : BlobRefMutation) (existing : ExistingObject)
      (e : Errors) (w : World)
      → IsUndoable (view w) hash prepared mutation
      → Ends P
          (λ w'. IsSafe c (view w'))
          (fail_put c now bucket key hash prepared mutation existing e w)
  unfolding fail_put
  fail_put-Ends P now bucket key hash prepared mutation existing e w u =
      cleaned-Ends P (rollback_put c now bucket key hash prepared mutation existing w) e
        (rollback_put-IsSafe now bucket key hash prepared mutation existing w u)
