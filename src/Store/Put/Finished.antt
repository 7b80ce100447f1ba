-- ===== src/Store/Put/Finished.antt =====
-- A put that reports success has stored the object (PutObject of internal/store/put.go).
use filpe.Prelude.{
  ℕ, ◌≡◌, refl, sym, subst, ◌||◌, Bool-cases, inl, inr, list_equality, number_equality,
}
use filpe.Prelude.Results.{ok}
use filpe.Prelude.Texts.{Text, trim_space, is_empty, trim_space_idem}
use filpe.Model.{ObjectMeta}
use filpe.Engine.Coder.{Bytes}
use filpe.Engine.Layouts.{EngineConfig}
use filpe.Engine.Blobs.RoundTrip.{HexHashes}
use filpe.Store.World.{World, ◌>>=◌, and_then}
use filpe.Store.Put.{
  PutOptions, ExistingObject, normalized, normalize_object_location, ensure_bucket_exists,
  load_existing_object, stage_object_meta,
}
use filpe.Store.Put.Steps.{put_staged_object, put_object, staged_of}
use filpe.Store.Put.Stored.{Gives, Gives-any, Gives-then, Gives-result}
use filpe.Store.Put.Hashed.{Hashed, prepare-Hashed}
use filpe.Store.Put.Completed.{IsStored, complete-Stored}

location-Trimmed :
    (bucket key : Text) (w : World)
    → Gives
        (λ location w'. location ≡ (trim_space bucket, trim_space key))
        (normalize_object_location bucket key w)
unfolding Gives normalize_object_location
location-Trimmed bucket key w =
    elim (Bool-cases (is_empty (trim_space bucket) || is_empty (trim_space key))) [
      | inl blank ↦ rw blank tt
      | inr named ↦ rw named refl
    ]

-- Whatever fails meanwhile, where PutObject reports success the answer is the object that is now
-- stored under the trimmed names, with these names, the hash of the input, and the content type and
-- the user metadata as PutOptions.normalized gives them.
pub put_object-Stored :
    (c : EngineConfig) (now : ℕ) (bucket key : Text) (bytes : Bytes) (opts : PutOptions) (w : World)
    (meta : ObjectMeta)
    → HexHashes c
    → (put_object c now bucket key bytes opts w).1 ≡ ok meta
    → IsStored
        (trim_space bucket)
        (trim_space key)
        (c.hash_bytes bytes)
        (normalized opts)
        meta
        (put_object c now bucket key bytes opts w).0
unfolding put_object put_staged_object
put_object-Stored c now bucket key bytes opts w meta hex done =
    let P = IsStored (trim_space bucket) (trim_space key) (c.hash_bytes bytes) (normalized opts) in
    Gives-result P (put_object c now bucket key bytes opts w) meta
      (Gives-then (λ location w'. location ≡ (trim_space bucket, trim_space key)) P _ _
        (location-Trimmed bucket key w)
        (λ location w1 at_location.
          subst
            (λ l. Gives P (
              and_then (ensure_bucket_exists l.0 w1) (λ u.
                load_existing_object l.0 l.1
                >>= put_staged_object c now l.0 l.1 (normalized opts) (staged_of c now bytes))))
            (sym at_location)
            (Gives-then (λ u w'. Unit {0}) P (ensure_bucket_exists (trim_space bucket) w1) _
              (Gives-any _)
              (λ u w2 v.
                Gives-then (λ u w'. Unit {0}) P
                  (load_existing_object (trim_space bucket) (trim_space key) w2) _ (Gives-any _)
                  (λ existing w3 v. staged-Stored existing w3)))))
      done
  where
    staged-Stored :
        (existing : ExistingObject) (w3 : World)
        → Gives
            (IsStored (trim_space bucket) (trim_space key) (c.hash_bytes bytes) (normalized opts))
            (put_staged_object c now
              (trim_space bucket)
              (trim_space key)
              (normalized opts)
              (staged_of c now bytes)
              existing
              w3)
    staged-Stored existing w3 =
        let P =
          IsStored (trim_space bucket) (trim_space key) (c.hash_bytes bytes) (normalized opts) in
        Gives-then (λ u w'. Unit {0}) P
          (stage_object_meta (trim_space bucket) (trim_space key) (normalized opts)
            (staged_of c now bytes) now w3)
          _ (Gives-any _)
          (λ pending w4 v.
            Gives-then
              (Hashed c now (trim_space bucket) (trim_space key) (normalized opts)
                (staged_of c now bytes))
              P _ _
              (prepare-Hashed c now (trim_space bucket) (trim_space key) (normalized opts)
                (staged_of c now bytes) w4)
              (λ prepared w5 hashed.
                complete-Stored c now (trim_space bucket) (trim_space key) (normalized opts)
                  (staged_of c now bytes) existing prepared hashed (hex.hash_trimmed bytes)
                  (trim_space_idem bucket) (trim_space_idem key) pending w5))
