-- ===== src/Store/Put/Whole.antt =====
-- PutObject of internal/store/put.go as a whole: no object loses its bytes, whatever fails.
use filpe.Prelude.{
  ℕ, ◌+◌, ◌<◌, ◌≡◌, refl, sym, ap, ◌∙◌, subst, Bool, true, false, ◌||◌, some, arith, Bool-cases,
  Option-cases, inl, inr, list_equality, number_equality,
}
use filpe.Prelude.Results.{ok, Result-cases}
use filpe.Prelude.Texts.{Text, trim_space, is_empty, trim_space_idem}
use filpe.Prelude.Words.{two_63}
use filpe.Prelude.Maps.{lookup}
use filpe.Model.{ObjectMeta}
use filpe.Raft.Commands.{State, object_map_key}
use filpe.Raft.Queries.{lookup_object_meta}
use filpe.Metadata.RaftStore
use filpe.Engine.Coder.{Bytes}
use filpe.Engine.Layouts.{EngineConfig}
use filpe.Engine.Blobs.RoundTrip.{HexHashes}
use filpe.Store.World.{World, pure, call_meta, read_meta, and_then, meta_call, faulty, next}
use filpe.Store.Put.{
  StagedObject, ExistingObject, PutOptions, normalize_object_location, ensure_bucket_exists,
  load_existing_object, existing_with, stage_object_meta, normalized,
}
use filpe.Store.Put.Steps.{put_staged_object, put_object, staged_of}
use filpe.Store.Put.Effects.{View, view, counted, IsSafe, BlobIntact}
use filpe.Store.Put.Quiet.{stage_object_meta-Quiet, ensure_bucket-Quiet}
use filpe.Store.Put.Rollback.{Ends, step-IsSafe, quiet-EndsSafe}
use filpe.Store.Put.Upsert.{IsExisting}
use filpe.Store.Put.Fresh.{Prepares, prepare_put_blob-Ends}
use filpe.Store.Put.Safety.{complete-IsSafe}

-- The hashes of the objects have no white space around them.
abbrev pub HashesTrimmed : View → Type 0
HashesTrimmed v =
    (id : Text) (meta : ObjectMeta)
    → lookup id v.objects ≡ some meta
    → trim_space meta.hash ≡ meta.hash

pub get_object_meta-found :
    (s : State) (bucket key : Text) (found : ObjectMeta × Bool)
    → RaftStore.get_object_meta s bucket key ≡ ok found
    → found.1 ≡ true
    → lookup (object_map_key bucket key) s.objects ≡ some found.0
unfolding RaftStore.get_object_meta lookup_object_meta
get_object_meta-found s bucket key found read there =
    elim (Option-cases (lookup (object_map_key bucket key) s.objects)) [
      | inl none_there ↦ absurd (ground arith)
      | inr (meta, at_key) ↦ ground arith
    ]

module _ (c : EngineConfig) (v : View) (safe : IsSafe c v) where
  -- Trimmed names, or an error and nothing changed.
  abbrev Located : Text × Text → World → Type 0
  Located location w =
      (view w ≡ v) × (trim_space location.0 ≡ location.0) × (trim_space location.1 ≡ location.1)

  location-Ends :
      (bucket key : Text) (w : World)
      → view w ≡ v
      → Ends c Located (λ w'. IsSafe c (view w')) (normalize_object_location bucket key w)
  unfolding normalize_object_location
  location-Ends bucket key w same =
      elim (Bool-cases (is_empty (trim_space bucket) || is_empty (trim_space key))) [
        | inl blank ↦ rw (blank, same) safe
        | inr named ↦ rw named (same, trim_space_idem bucket, trim_space_idem key)
      ]

  module _ (bucket key : Text) (trimmed : HashesTrimmed v) where
    abbrev Loaded : ExistingObject → World → Type 0
    Loaded existing w = (view w ≡ v) × IsExisting v (object_map_key bucket key) existing

    with_ref-Ends :
        (b : Bool) (meta : ObjectMeta) (w : World)
        → view w ≡ v
        → lookup (object_map_key bucket key) v.objects ≡ some meta
        → Ends c Loaded
            (λ w'. IsSafe c (view w'))
            (and_then (meta_call b (λ s. (s, RaftStore.get_blob_ref s meta.hash)) w) (λ found.
              pure (record { meta = meta; ref = found.0; exists = true; ref_exists = found.1 })))
    with_ref-Ends true meta w same there = subst (IsSafe c) (sym same) safe
    with_ref-Ends false meta w same there =
        elim (Result-cases (RaftStore.get_blob_ref w.meta meta.hash)) [
          | inl (e, failed) ↦ rw failed (subst (IsSafe c) (sym same) safe)
          | inr (found, read) ↦ rw read (same, λ e. (there, trimmed _ meta there))
        ]

    existing_with-Ends :
        (found : ObjectMeta × Bool) (w : World)
        → view w ≡ v
        → (found.1 ≡ true → lookup (object_map_key bucket key) v.objects ≡ some found.0)
        → Ends c Loaded (λ w'. IsSafe c (view w')) (existing_with found w)
    unfolding existing_with read_meta call_meta
    existing_with-Ends (meta, false) w same there = (same, λ e. absurd (ground arith))
    existing_with-Ends (meta, true) w same there =
        with_ref-Ends (faulty w.faults) meta w same (there refl)

    object-Ends :
        (b : Bool) (w : World)
        → view w ≡ v
        → Ends c Loaded
            (λ w'. IsSafe c (view w'))
            (and_then
              (meta_call b (λ s. (s, RaftStore.get_object_meta s bucket key)) w)
              existing_with)
    object-Ends true w same = subst (IsSafe c) (sym same) safe
    object-Ends false w same = elim (Result-cases (RaftStore.get_object_meta w.meta bucket key)) [
      | inl (e, failed) ↦ rw failed (subst (IsSafe c) (sym same) safe)
      | inr (found, read) ↦ rw read (
          existing_with-Ends found (next w) same (λ e.
            sym (ap (λ x. lookup (object_map_key bucket key) x.objects) same)
            ∙ get_object_meta-found w.meta bucket key found read e))
    ]

    -- The object as it is before the put.
    load-Ends :
        (w : World)
        → view w ≡ v
        → Ends c Loaded (λ w'. IsSafe c (view w')) (load_existing_object bucket key w)
    unfolding load_existing_object read_meta call_meta
    load-Ends w same = object-Ends (faulty w.faults) w same

  module _ (bucket key : Text) (now : ℕ) (opts : PutOptions) (staged : StagedObject)
      (bucket_trimmed : trim_space bucket ≡ bucket) (key_trimmed : trim_space key ≡ key)
      (trimmed : trim_space staged.hash ≡ staged.hash) (kept : BlobIntact c v staged.hash)
      (hashed : staged.hash ≡ c.hash_bytes staged.bytes)
      (room : counted staged.hash v.refs + 1 < two_63) where
    put_staged-IsSafe :
        (existing : ExistingObject) (w : World)
        → view w ≡ v
        → IsExisting v (object_map_key bucket key) existing
        → IsSafe c (view (put_staged_object c now bucket key opts staged existing w).0)
    unfolding put_staged_object
    put_staged-IsSafe existing w same there =
        step-IsSafe c (λ pending w'. view w' ≡ v) _ _
          (quiet-EndsSafe c v (stage_object_meta bucket key opts staged now w)
            (stage_object_meta-Quiet bucket key opts staged now w ∙ same) safe)
          (λ pending w1 same1.
            step-IsSafe c (Prepares c now key staged v) _ _
              (prepare_put_blob-Ends c now key staged v safe trimmed kept bucket w1 same1 hashed)
              (λ prepared w2 (ready, objects, refs).
                complete-IsSafe c bucket key existing now opts staged prepared bucket_trimmed
                  key_trimmed (view w2) ready pending w2 refl
                  (subst (λ m. counted staged.hash m + 1 < two_63) (sym refs) room)
                  (subst
                    (λ m.
                      existing.exists ≡ true
                      → (lookup (object_map_key bucket key) m ≡ some existing.meta)
                        × (trim_space existing.meta.hash ≡ existing.meta.hash))
                    (sym objects) there)))

-- Whatever calls of the metadata or the engine fail during PutObject, and wherever it stops: every
-- object is still counted by the reference of its hash, every count is a positive int64, and every
-- object's shards encode data with the object's hash, if this held before, the reference of the new
-- content's hash names intact shards where there is one, its count is below the largest int64 less
-- one, and the hashes have no white space around them.
pub put_object-IsSafe :
    (c : EngineConfig) (now : ℕ) (bucket key : Text) (bytes : Bytes) (opts : PutOptions) (w : World)
    → HexHashes c
    → IsSafe c (view w)
    → HashesTrimmed (view w)
    → BlobIntact c (view w) (c.hash_bytes bytes)
    → counted (c.hash_bytes bytes) w.meta.blob_refs + 1 < two_63
    → IsSafe c (view (put_object c now bucket key bytes opts w).0)
unfolding put_object
put_object-IsSafe c now bucket key bytes opts w hex safe trimmed kept room =
    let v = view w in
    step-IsSafe c (Located c v safe) _ _ (location-Ends c v safe bucket key w refl)
      (λ location w1 (same1, bucket_trimmed, key_trimmed).
        step-IsSafe c (λ u w'. view w' ≡ v) _ _
          (quiet-EndsSafe c v (ensure_bucket_exists location.0 w1)
            (ensure_bucket-Quiet location.0 w1 ∙ same1) safe)
          (λ u w2 same2.
            step-IsSafe c (Loaded c v safe location.0 location.1 trimmed) _ _
              (load-Ends c v safe location.0 location.1 trimmed w2 same2)
              (λ existing w3 (same3, there).
                put_staged-IsSafe c v safe location.0 location.1 now (normalized opts)
                  (staged_of c now bytes) bucket_trimmed key_trimmed (hex.hash_trimmed bytes) kept
                  refl room existing w3 same3 there)))
