-- ===== src/Store/Put/Upsert.antt =====
-- What committing an object and releasing the one that it replaces keep (completePreparedPut of
-- internal/store/put.go).
use filpe.Prelude.{
  ◌≤◌, ◌≡◌, refl, sym, subst, Bool, true, false, ◌&&◌, not, some, arith, inl, inr, ◌⊎◌, ◌==◌,
  ==_iff, ==-refl, list_equality, number_equality, &&-true,
}
use filpe.Prelude.Results.{ok, err}
use filpe.Prelude.Texts.{Text, trim_space}
use filpe.Prelude.Maps.{lookup, insert}
use filpe.Model.{ObjectMeta, object_state_committed}
use filpe.Raft.Commands.{
  State, object_map_key, apply_metadata_command, dispatch, apply_upsert_object, check_object,
}
use filpe.Raft.Types
use filpe.Metadata.{MetadataError, bad_request, bucket_exists, bucket_not_found, object_not_found}
use filpe.Metadata.RaftStore
use filpe.Engine.Layouts.{EngineConfig}
use filpe.Store.World.{World, M}
use filpe.Store.Put.{ExistingObject, release_blob}
use filpe.Store.Put.Steps.{when, release_replaced_blob}
use filpe.Store.Put.Effects.{
  View, view, uses, counted, uses-insert, IsSafe, BlobIntact, Spare, insert-IsSafe,
}
use filpe.Store.Put.Releases.{release_blob-Kept}

-- An object that was there is the one that was loaded, and its hash has no white space around it.
abbrev pub IsExisting : View → Text → ExistingObject → Type 0
IsExisting v id existing =
    existing.exists ≡ true
    → (lookup id v.objects ≡ some existing.meta)
      × (trim_space existing.meta.hash ≡ existing.meta.hash)

module _ (s : State) (meta : ObjectMeta) where
  abbrev pub stated : ObjectMeta
  stated = record meta { state = object_state_committed }

  abbrev pub Leaves : Type 0
  Leaves =
      ((e : MetadataError) × (RaftStore.upsert_object_meta s meta ≡ (s, err e)))
      ⊎ (RaftStore.upsert_object_meta s meta ≡ (
        record s { objects = insert (object_map_key meta.bucket meta.key) stated s.objects },
        ok tt,
      ))

  upsert-code : (code : Types.Code) → check_object s stated ≡ code → Leaves
  unfolding RaftStore.upsert_object_meta apply_metadata_command dispatch apply_upsert_object
  upsert-code Types.success e = inr (ground arith)
  upsert-code Types.bad_request e = inl (bad_request, ground arith)
  upsert-code Types.bucket_exists e = inl (bucket_exists, ground arith)
  upsert-code Types.bucket_not_found e = inl (bucket_not_found, ground arith)
  upsert-code Types.object_not_found e = inl (object_not_found, ground arith)

  pub upsert-leaves : Leaves
  upsert-leaves = upsert-code (check_object s stated) refl

module _ (c : EngineConfig) (bucket key hash : Text) (existing : ExistingObject) where
  abbrev pub id : Text
  id = object_map_key bucket key

  abbrev pub replaced : View → ObjectMeta → View
  replaced v meta = record v { objects = insert id meta v.objects }

  -- The object is counted, as a new one or as the same again.
  pub commit-IsSafe :
      (v : View) (meta : ObjectMeta)
      → IsSafe c v
      → BlobIntact c v hash
      → IsExisting v id existing
      → meta.hash ≡ hash
      → Spare v hash ⊎ ((existing.exists && existing.meta.hash == hash) ≡ true)
      → IsSafe c (replaced v meta)
  commit-IsSafe v meta safe kept there same counts =
      insert-IsSafe c v id meta safe
        (subst (λ h. uses h (insert id meta v.objects) ≤ counted h v.refs) (sym same)
          (enough counts))
        (subst (BlobIntact c v) (sym same) kept)
    where
      enough :
          Spare v hash ⊎ ((existing.exists && existing.meta.hash == hash) ≡ true)
          → uses hash (insert id meta v.objects) ≤ counted hash v.refs
      enough (inl spare) = ground (arith, uses-insert hash id meta v.objects)
      enough (inr again) =
          let (exists, equal) = &&-true _ _ again in
          let (found, trimmed) = there exists in
          ground (
            arith,
            found,
            equal,
            uses-insert hash id meta v.objects,
            safe.covered hash,
            same,
            ==-refl hash,
          )

  -- The object that was replaced leaves a reference over.
  pub replaced-Spare :
      (v : View) (meta : ObjectMeta)
      → IsSafe c v
      → IsExisting v id existing
      → meta.hash ≡ hash
      → existing.exists ≡ true
      → (existing.meta.hash == hash) ≡ false
      → Spare (replaced v meta) existing.meta.hash
  replaced-Spare v meta safe there same exists other =
      let (found, trimmed) = there exists in
      let old = existing.meta.hash in
      ground (
        arith,
        found,
        uses-insert old id meta v.objects,
        safe.covered old,
        same,
        ==-refl old,
        ==_iff hash old,
        ==_iff old hash,
      )

  when-IsSafe :
      (b : Bool) (m : M (Unit {0})) (w : World)
      → IsSafe c (view w)
      → (b ≡ true → IsSafe c (view (m w).0))
      → IsSafe c (view (when b m w).0)
  when-IsSafe true m w safe kept = kept refl
  when-IsSafe false m w safe kept = safe

  -- What is released after the commit, where anything is.
  abbrev pub Releasable : View → Type 0
  Releasable v =
      (existing.exists && not (existing.meta.hash == hash)) ≡ true
      → Spare v existing.meta.hash × (trim_space existing.meta.hash ≡ existing.meta.hash)

  pub release-IsSafe :
      (w : World)
      → IsSafe c (view w)
      → Releasable (view w)
      → IsSafe c (view (release_replaced_blob existing hash w).0)
  unfolding release_replaced_blob
  release-IsSafe w safe more =
      when-IsSafe (existing.exists && not (existing.meta.hash == hash))
        (release_blob existing.meta.hash) w safe
        (λ e. (release_blob-Kept c existing.meta.hash w (more e).1 safe (more e).0).safe)
