-- ===== src/Store/Objects/Gone.antt =====
-- What a delete that reports success has done (DeleteObject of internal/store/store.go).
use filpe.Prelude.{
  ◌≡◌, refl, ap, ◌∙◌, Bool, true, false, none, some, arith, ==-refl, list_equality, number_equality,
  Bool-cases, inl, inr,
}
use filpe.Prelude.Results.{Result, ok, err, Result-cases}
use filpe.Prelude.Texts.{Text}
use filpe.Prelude.Maps.{lookup, lookup-erase}
use filpe.Model.{ObjectMeta}
use filpe.Raft.Commands.{object_map_key}
use filpe.Metadata.RaftStore
use filpe.Engine.Layouts
use filpe.Engine.Layouts.{EngineConfig}
use filpe.Store.World.{
  World, Errors, call_meta, read_meta, call_engine, and_then, meta_call, next, faulty,
}
use filpe.Store.Put.{release_blob}
use filpe.Store.Put.Quiet.{call_engine-Quiet, delete_layout-keeps}
use filpe.Store.Put.Stored.{Gives, Gives-then, Gives-result, Same, release-Same}
use filpe.Store.Put.Whole.{get_object_meta-found}
use filpe.Store.Objects.{
  existing_object, stat_object, settled, is_layout_missing, delete_found, delete_object,
}
use filpe.Store.Objects.Erasing.{delete_object_meta-leaves}

module _ (c : EngineConfig) (bucket key : Text) where
  abbrev id : Text
  id = object_map_key bucket key

  -- The object is not there any more, and is the one that was there.
  pub record IsGone (before : World) (meta : ObjectMeta) (w : World) : Type 0 where
    pub was : lookup id before.meta.objects ≡ some meta
    pub gone : lookup id w.meta.objects ≡ none

  erased-Gone :
      (b : Bool) (meta : ObjectMeta) (w : World)
      → lookup id w.meta.objects ≡ some meta
      → Gives
          (λ u w'. lookup id w'.meta.objects ≡ none)
          (meta_call b (λ s. RaftStore.delete_object_meta s bucket key) w)
  unfolding Gives
  erased-Gone true meta w there = tt
  erased-Gone false meta w there = elim (delete_object_meta-leaves w.meta bucket key meta there) [
    | inl failed ↦ rw failed tt
    | inr done ↦ rw done (ground (arith, lookup-erase id id w.meta.objects, ==-refl id))
  ]

  settled-Gone :
      (before : World) (layout : Result Errors (Unit {0})) (meta : ObjectMeta) (w : World)
      → IsGone before meta w
      → Gives (IsGone before) (settled layout meta w)
  unfolding Gives
  settled-Gone before (ok u) meta w gone = gone
  settled-Gone before (err e) meta w gone = elim (Bool-cases (is_layout_missing e)) [
    | inl absent ↦ rw absent gone
    | inr other ↦ rw other tt
  ]

  delete_found-Gone :
      (before : World) (meta : ObjectMeta) (w : World)
      → lookup id before.meta.objects ≡ some meta
      → lookup id w.meta.objects ≡ some meta
      → Gives (IsGone before) (delete_found c bucket key meta w)
  unfolding delete_found call_meta
  delete_found-Gone before meta w was there =
      Gives-then (λ u w'. lookup id w'.meta.objects ≡ none) (IsGone before)
        (meta_call (faulty w.faults) (λ s. RaftStore.delete_object_meta s bucket key) w) _
        (erased-Gone (faulty w.faults) meta w there)
        (λ a w1 gone.
          let deleted = call_engine (λ e. Layouts.delete_object_layout c e bucket key) w1 in
          let same2 : deleted.0.meta.objects ≡ w1.meta.objects =
            ap (λ v. v.objects)
              (call_engine-Quiet (λ e. Layouts.delete_object_layout c e bucket key)
                (delete_layout-keeps c 0 bucket key) w1) in
          Gives-then (Same deleted.0.meta.objects) (IsGone before)
            (release_blob meta.hash deleted.0) _ (release-Same meta.hash deleted.0)
            (λ u w3 same3.
              settled-Gone before deleted.1 meta w3
                (record { was = was; gone = ap (lookup id) (same3 ∙ same2) ∙ gone })))

  existing-Gone :
      (before : World) (found : ObjectMeta × Bool) (w : World)
      → w.meta.objects ≡ before.meta.objects
      → (found.1 ≡ true → lookup id before.meta.objects ≡ some found.0)
      → Gives (IsGone before) (and_then (existing_object found w) (delete_found c bucket key))
  unfolding Gives
  existing-Gone before (meta, true) w same there =
      delete_found-Gone before meta w (there refl) (ap (lookup id) same ∙ there refl)
  existing-Gone before (meta, false) w same there = tt

  delete-Gone :
      (b : Bool) (w : World)
      → Gives (IsGone w) (
          and_then
            (and_then
              (meta_call b (λ s. (s, RaftStore.get_object_meta s bucket key)) w)
              existing_object)
            (delete_found c bucket key))
  unfolding Gives
  delete-Gone true w = tt
  delete-Gone false w = elim (Result-cases (RaftStore.get_object_meta w.meta bucket key)) [
    | inl (e, failed) ↦ rw failed tt
    | inr (found, read) ↦
        rw read
          (existing-Gone w found (next w) refl (get_object_meta-found w.meta bucket key found read))
  ]

  -- Whatever fails meanwhile, where DeleteObject reports success its answer is the object that was
  -- there, and there is no object under the names any more.
  pub delete_object-Gone :
      (w : World) (meta : ObjectMeta)
      → (delete_object c bucket key w).1 ≡ ok meta
      → IsGone w meta (delete_object c bucket key w).0
  unfolding delete_object stat_object read_meta call_meta
  delete_object-Gone w meta done =
      Gives-result (IsGone w) (delete_object c bucket key w) meta (delete-Gone (faulty w.faults) w)
        done
