-- ===== src/Store/Objects/Deletes.antt =====
-- DeleteObject and DeleteBucket of internal/store/store.go keep the bytes of all other objects.
use filpe.Prelude.{
  ◌≡◌, refl, sym, ap, ◌∙◌, subst, Bool, true, false, some, arith, ==-refl, list_equality,
  number_equality, inl, inr,
}
use filpe.Prelude.Results.{Result, ok, err, Result-cases}
use filpe.Prelude.Texts.{Text}
use filpe.Prelude.Maps.{lookup, erase}
use filpe.Model.{ObjectMeta, zero_object}
use filpe.Raft.Commands.{object_map_key}
use filpe.Metadata.RaftStore
use filpe.Engine.Layouts
use filpe.Engine.Layouts.{EngineConfig}
use filpe.Store.World.{
  World, M, Errors, call_meta, read_meta, call_engine, and_then, meta_call, next, faulty,
}
use filpe.Store.Put.{release_blob}
use filpe.Store.Put.Effects.{View, view, IsSafe, Spare}
use filpe.Store.Put.Quiet.{call_engine-Quiet, delete_layout-keeps}
use filpe.Store.Put.Releases.{release_blob-Kept}
use filpe.Store.Put.Rollback.{Ends}
use filpe.Store.Put.Whole.{HashesTrimmed, get_object_meta-found}
use filpe.Store.Objects.{
  existing_object, stat_object, settled, unless_not_found, delete_found, delete_object,
}
use filpe.Store.Objects.Erasing.{
  uses-erase, shrink-IsSafe, erase-HashesTrimmed, delete_object_meta-leaves,
}

pub unless_not_found-world :
    {A : Type 0} (r : World × Result Errors A) → (unless_not_found r).0 ≡ r.0
unless_not_found-world (w, ok a) = refl
unless_not_found-world (w, err e) = ground arith

module _ (c : EngineConfig) where
  -- What deletes keep.
  pub record Sound (v : View) : Type 0 where
    pub safe : IsSafe c v
    pub trimmed : HashesTrimmed v

  abbrev pub SoundWorld : World → Type 0
  SoundWorld w = Sound (view w)

  pub Ends-then :
      {A B : Type 0} (P : A → World → Type 0) (r : World × Result Errors A) (f : A → M B)
      → Ends c P SoundWorld r
      → ((a : A) (w : World) → P a w → SoundWorld (f a w).0)
      → SoundWorld (and_then r f).0
  Ends-then P (w, ok a) f ends go = go a w ends
  Ends-then P (w, err e) f ends go = ends

  pub Ends-either :
      {A : Type 0} (r : World × Result Errors A)
      → SoundWorld r.0
      → Ends c (λ a w. SoundWorld w) SoundWorld r
  Ends-either (w, ok a) sound = sound
  Ends-either (w, err e) sound = sound

  pub Ends-IsSafe :
      {A : Type 0} (r : World × Result Errors A)
      → SoundWorld r.0
      → Ends c (λ a w. SoundWorld w) (λ w. IsSafe c (view w)) r
  Ends-IsSafe (w, ok a) sound = sound
  Ends-IsSafe (w, err e) sound = sound.safe

  settled-view :
      (layout : Result Errors (Unit {0})) (meta : ObjectMeta) (w : World)
      → (settled layout meta w).0 ≡ w
  settled-view (ok u) meta w = refl
  settled-view (err e) meta w = ground arith

  module _ (bucket key : Text) (meta : ObjectMeta) where
    abbrev id : Text
    id = object_map_key bucket key

    abbrev without : View → View
    without v = record v { objects = erase id v.objects }

    delete_meta-Ends :
        (b : Bool) (w : World)
        → Sound (view w)
        → lookup id w.meta.objects ≡ some meta
        → Ends c
            (λ a w'. view w' ≡ without (view w))
            SoundWorld
            (meta_call b (λ s. RaftStore.delete_object_meta s bucket key) w)
    delete_meta-Ends true w sound there = sound
    delete_meta-Ends false w sound there =
        elim (delete_object_meta-leaves w.meta bucket key meta there) [
          | inl failed ↦ rw failed sound
          | inr done ↦ rw done refl
        ]

    -- Without the object, its hash has a reference to spare.
    without-Spare :
        (v : View) → IsSafe c v → lookup id v.objects ≡ some meta → Spare (without v) meta.hash
    without-Spare v safe there =
        ground (
          arith,
          there,
          uses-erase meta.hash id v.objects,
          safe.covered meta.hash,
          ==-refl meta.hash,
        )

    delete_found-Sound :
        (w : World)
        → Sound (view w)
        → lookup id w.meta.objects ≡ some meta
        → SoundWorld (delete_found c bucket key meta w).0
    unfolding delete_found call_meta
    delete_found-Sound w sound there =
        let v = view w in
        let safe =
          shrink-IsSafe c v (erase id v.objects) (λ h. omega (arith, uses-erase h id v.objects))
            sound.safe in
        let trimmed = erase-HashesTrimmed v id sound.trimmed in
        Ends-then (λ a w'. view w' ≡ without v) _ _
          (delete_meta-Ends (faulty w.faults) w sound there)
          (λ a w1 same1.
            let w2 = (call_engine (λ e. Layouts.delete_object_layout c e bucket key) w1).0 in
            let same2 : view w2 ≡ without v =
              call_engine-Quiet (λ e. Layouts.delete_object_layout c e bucket key)
                (delete_layout-keeps c 0 bucket key) w1
              ∙ same1 in
            let kept =
              release_blob-Kept c meta.hash w2 (sound.trimmed id meta there)
                (subst (IsSafe c) (sym same2) safe)
                (subst (λ x. Spare x meta.hash) (sym same2) (without-Spare v sound.safe there)) in
            let after : SoundWorld (release_blob meta.hash w2).0 = record {
              safe = kept.safe;
              trimmed = λ at m found.
                  trimmed at m
                    (ap (lookup at) (sym (kept.objects ∙ ap (λ x. x.objects) same2)) ∙ found);
            } in
            Ends-then (λ a w'. SoundWorld w') (release_blob meta.hash w2) _
              (Ends-either (release_blob meta.hash w2) after)
              (λ u w3 sound3. rw (settled-view _ meta w3) sound3))

    -- The object as it was found.
    abbrev FoundIn : View → ObjectMeta → World → Type 0
    FoundIn v m w = (view w ≡ v) × (lookup (object_map_key bucket key) v.objects ≡ some m)

    existing-Ends :
        (found : ObjectMeta × Bool) (w : World) (v : View)
        → view w ≡ v
        → Sound v
        → (found.1 ≡ true → lookup id v.objects ≡ some found.0)
        → Ends c (FoundIn v) SoundWorld (existing_object found w)
    existing-Ends (m, true) w v same sound there = (same, there refl)
    existing-Ends (m, false) w v same sound there = subst Sound (sym same) sound

    read-Ends :
        (b : Bool) (w : World)
        → SoundWorld w
        → Ends c (FoundIn (view w)) SoundWorld (
            and_then
              (meta_call b (λ s. (s, RaftStore.get_object_meta s bucket key)) w)
              existing_object)
    read-Ends true w sound = sound
    read-Ends false w sound = elim (Result-cases (RaftStore.get_object_meta w.meta bucket key)) [
      | inl (e, failed) ↦ rw failed sound
      | inr (found, read) ↦ rw read (
          existing-Ends found (next w) (view w) refl sound
            (get_object_meta-found w.meta bucket key found read))
    ]

  -- Whatever fails during DeleteObject, every object that is left is counted and its shards are
  -- intact, if this held before and the hashes of the objects have no white space around them; and
  -- the hashes stay so.
  pub delete_object-Sound :
      (bucket key : Text) (w : World) → SoundWorld w → SoundWorld (delete_object c bucket key w).0
  unfolding delete_object stat_object read_meta call_meta
  delete_object-Sound bucket key w sound =
      Ends-then (FoundIn bucket key zero_object (view w)) (stat_object bucket key w)
        (delete_found c bucket key) (read-Ends bucket key zero_object (faulty w.faults) w sound)
        (λ meta w' (same, there).
          delete_found-Sound bucket key meta w' (subst Sound (sym same) sound)
            (ap (λ x. lookup (object_map_key bucket key) x.objects) same ∙ there))
