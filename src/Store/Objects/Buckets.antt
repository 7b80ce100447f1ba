-- ===== src/Store/Objects/Buckets.antt =====
-- DeleteBucket of internal/store/store.go keeps the bytes of all other objects.
use filpe.Prelude.{
  sym, subst, Bool, true, false, List, [], ◌∷◌, list_equality, number_equality, Bool-cases, inl,
  inr,
}
use filpe.Prelude.Results.{Result-cases}
use filpe.Prelude.Texts.{Text, trim_space, is_empty}
use filpe.Model.{ObjectMeta}
use filpe.Metadata.RaftStore
use filpe.Engine.Layouts.{EngineConfig}
use filpe.Store.World.{World, call_meta, read_meta, and_then, meta_call, next, faulty}
use filpe.Store.Put.Effects.{view, IsSafe}
use filpe.Store.Put.Rollback.{step-IsSafe}
use filpe.Store.Objects.{unless_not_found, delete_object, delete_objects, delete_bucket}
use filpe.Store.Objects.Erasing.{shrink-IsSafe, delete_bucket-leaves}
use filpe.Store.Objects.Deletes.{
  unless_not_found-world, Sound, SoundWorld, Ends-then, Ends-either, Ends-IsSafe,
  delete_object-Sound,
}

module _ (c : EngineConfig) where
  delete_objects-Sound :
      (objects : List ObjectMeta) (w : World)
      → SoundWorld c w
      → SoundWorld c (delete_objects c objects w).0
  unfolding delete_objects
  delete_objects-Sound [] w sound = sound
  delete_objects-Sound (meta ∷ more) w sound =
      let deleted = delete_object c meta.bucket meta.key w in
      Ends-then c (λ u w'. SoundWorld c w') (unless_not_found deleted) _
        (Ends-either c (unless_not_found deleted) (
          subst (SoundWorld c) (sym (unless_not_found-world deleted))
            (delete_object-Sound c meta.bucket meta.key w sound)))
        (λ u w' sound'. delete_objects-Sound more w' sound')

  remove_bucket-IsSafe :
      (b : Bool) (bucket : Text) (w : World)
      → IsSafe c (view w)
      → IsSafe c (view (meta_call b (λ s. RaftStore.delete_bucket s bucket) w).0)
  remove_bucket-IsSafe true bucket w safe = safe
  remove_bucket-IsSafe false bucket w safe =
      let (refs, fewer) = delete_bucket-leaves w.meta bucket in
      rw refs
        (shrink-IsSafe c (view w) (RaftStore.delete_bucket w.meta bucket).0.objects fewer safe)

  remove_objects-IsSafe :
      (objects : List ObjectMeta) (bucket : Text) (w : World)
      → SoundWorld c w
      → IsSafe c (
          view
            (and_then
              (delete_objects c objects w)
              (λ u. call_meta (λ s. RaftStore.delete_bucket s bucket))).0)
  unfolding call_meta
  remove_objects-IsSafe objects bucket w sound =
      let deleted = delete_objects c objects w in
      step-IsSafe c (λ u w'. SoundWorld c w') deleted _
        (Ends-IsSafe c deleted (delete_objects-Sound objects w sound))
        (λ u w' sound'. remove_bucket-IsSafe (faulty w'.faults) bucket w' sound'.safe)

  list-IsSafe :
      (b : Bool) (bucket : Text) (w : World)
      → SoundWorld c w
      → IsSafe c (
          view
            (and_then
              (meta_call b (λ s. (s, RaftStore.list_object_metas s bucket [])) w)
              (λ objects w1.
                and_then
                  (delete_objects c objects w1)
                  (λ u. call_meta (λ s. RaftStore.delete_bucket s bucket)))).0)
  list-IsSafe true bucket w sound = sound.safe
  list-IsSafe false bucket w sound =
      elim (Result-cases (RaftStore.list_object_metas w.meta bucket [])) [
        | inl (e, failed) ↦ rw failed sound.safe
        | inr (objects, read) ↦ rw read (
            remove_objects-IsSafe objects bucket (next w)
              (record { safe = sound.safe; trimmed = sound.trimmed }))
      ]

  -- Whatever fails during DeleteBucket, and wherever it stops, every object that is left is counted
  -- and its shards are intact, if this held before and the hashes of the objects have no white space
  -- around them.
  pub delete_bucket-IsSafe :
      (given : Text) (w : World) → Sound c (view w) → IsSafe c (view (delete_bucket c given w).0)
  unfolding delete_bucket read_meta call_meta
  delete_bucket-IsSafe given w sound = elim (Bool-cases (is_empty (trim_space given))) [
    | inl blank ↦ rw blank sound.safe
    | inr named ↦ rw named (list-IsSafe (faulty w.faults) (trim_space given) w sound)
  ]
