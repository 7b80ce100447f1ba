-- ===== src/Raft/Objects.antt =====
-- What is read back after a write (internal/raft/state_machine_commands.go).
use filpe.Prelude.{
  ◌≡◌, refl, sym, ap, ◌∙◌, ◌≢◌, inl, inr, false, Option, none, some, [], ◌∷◌, ◌++◌, arith,
  Option-cases, ◌==◌, ==_iff, list_equality, number_equality, if◌then◌else◌, All, ◌&&◌,
  eq_true_of_iff,
}
use mathlib.Core.List.{append_assoc}
use filpe.Prelude.Texts.{Text}
use filpe.Prelude.Maps.{
  Each, lookup, has, lookup-insert, lookup-erase, lookup-erase_where, keep_unless,
}
use filpe.Model.{ObjectMeta, object_state_committed, zero_object}
use filpe.Raft.Types.{success, zero_result}
use filpe.Raft.Commands.{
  State, invalid_object, object_map_key, check_object, in_bucket, apply_upsert_object,
  apply_delete_object, apply_delete_bucket,
}
use filpe.Raft.Queries.{answer, found_object, lookup_object_meta}
use filpe.Raft.Invariant.{Inv}

-- No NUL, which separates the bucket from the key.
abbrev pub NoNul : Text → Type 0
NoNul = All (λ c. c ≢ 0)

-- Bucket names without NUL are told apart in the map key.
pub object_map_key-injective :
    (b c k l : Text)
    → NoNul b
    → NoNul c
    → object_map_key b k ≡ object_map_key c l
    → (b ≡ c) × (k ≡ l)
unfolding object_map_key
object_map_key-injective [] [] k l nb nc e = (refl, ground arith)
object_map_key-injective [] (y ∷ c) k l nb nc e = absurd (nc.0 (ground arith))
object_map_key-injective (x ∷ b) [] k l nb nc e = absurd (nb.0 (ground arith))
object_map_key-injective (x ∷ b) (y ∷ c) k l nb nc e =
    let tails : object_map_key b k ≡ object_map_key c l = unfold object_map_key in ground arith in
    let (p, q) = object_map_key-injective b c k l nb.1 nc.1 tails in (ground arith, q)

-- Two locations in buckets without NUL share a map key exactly when they are the same.
key_matches_iff :
    (meta : ObjectMeta) (bucket key : Text)
    → NoNul meta.bucket
    → NoNul bucket
    → (object_map_key meta.bucket meta.key == object_map_key bucket key)
      ≡ (bucket == meta.bucket && key == meta.key)
key_matches_iff meta bucket key nm nb =
    eq_true_of_iff _ _
      (λ h.
        let (p, q) =
          object_map_key-injective meta.bucket bucket meta.key key nm nb
            ((==_iff (object_map_key meta.bucket meta.key) (object_map_key bucket key)).0 h) in
        ground (arith, ==_iff bucket meta.bucket, ==_iff key meta.key))
      (λ h. ground (
        arith,
        ==_iff bucket meta.bucket,
        ==_iff key meta.key,
        ==_iff (object_map_key meta.bucket meta.key) (object_map_key bucket key),
      ))

-- After an accepted write of an object, reading a location finds that object, committed, if it is
-- the object's own bucket and key, and what was there before if not. Bucket names hold no NUL.
pub lookup-upsert :
    (s : State) (meta : ObjectMeta) (bucket key : Text)
    → NoNul meta.bucket
    → NoNul bucket
    → (apply_upsert_object s meta).1 ≡ success
    → lookup_object_meta (apply_upsert_object s meta).0 bucket key ≡ (
        if bucket == meta.bucket && key == meta.key
        then answer (found_object (some (record meta { state = object_state_committed })))
        else lookup_object_meta s bucket key)
unfolding apply_upsert_object lookup_object_meta check_object
lookup-upsert s meta bucket key nm nb ok = ground (
  arith,
  key_matches_iff meta bucket key nm nb,
  ==_iff bucket meta.bucket,
  ==_iff key meta.key,
  lookup-insert (object_map_key meta.bucket meta.key) (object_map_key bucket key)
      (record meta { state = object_state_committed }) s.objects,
)

-- Deleting an object, of a name that is not blank in a bucket whose name is neither blank nor holds
-- a NUL, removes that location only and reports what was stored there: the lookup of any location
-- in a bucket whose name holds no NUL gives what it gave before, or nothing for the deleted one.
pub lookup-delete_object :
    (s : State) (bucket key b k : Text)
    → NoNul bucket
    → NoNul b
    → invalid_object bucket key ≡ false
    → let (s', result, code) = apply_delete_object s bucket key in
      (code ≡ success)
      × (answer result ≡ lookup_object_meta s bucket key)
      × (lookup_object_meta s' b k
          ≡ (if b == bucket && k == key then answer zero_result else lookup_object_meta s b k))
unfolding apply_delete_object lookup_object_meta
lookup-delete_object s bucket key b k nb nc valid = ground (
  arith,
  key_matches_iff (record zero_object { bucket = bucket; key = key }) b k nb nc,
  ==_iff b bucket,
  ==_iff k key,
  lookup-erase (object_map_key bucket key) (object_map_key b k) s.objects,
)

-- The bucket names of a state hold no NUL.
abbrev pub PlainBuckets : State → Type 0
PlainBuckets s = Each (λ k bucket. NoNul k) s.buckets

erased_entry :
    (bucket b k : Text) (m : Option ObjectMeta)
    → NoNul bucket
    → NoNul b
    → ((meta : ObjectMeta)
        → m ≡ some meta
        → (object_map_key b k ≡ object_map_key meta.bucket meta.key) × NoNul meta.bucket)
    → keep_unless (in_bucket bucket) m ≡ (if b == bucket then none else m)
erased_entry bucket b k none nb nc h = ground arith
erased_entry bucket b k (some meta) nb nc h =
    let (e, nm) = h meta refl in
    let (p, q) = object_map_key-injective b meta.bucket k meta.key nc nm e in
    ground (arith, ==_iff b bucket, ==_iff meta.bucket bucket)

placed_entry :
    (s : State) (b k : Text) (meta : ObjectMeta)
    → Inv s
    → PlainBuckets s
    → lookup (object_map_key b k) s.objects ≡ some meta
    → (object_map_key b k ≡ object_map_key meta.bucket meta.key) × NoNul meta.bucket
placed_entry s b k meta v plain found =
    let p = v.objects (object_map_key b k) meta found in
    elim (Option-cases (lookup meta.bucket s.buckets)) [
      | inl e ↦ let h = p.housed in absurd (ground arith)
      | inr (house, e) ↦ (p.keyed, plain meta.bucket house e)
    ]

-- The objects of a bucket go with it: after an accepted deletion the bucket is gone, no location of
-- it is found, and every location of another bucket is found as before. Bucket names hold no NUL.
pub lookup-delete_bucket :
    (s : State) (bucket b k : Text)
    → Inv s
    → PlainBuckets s
    → NoNul bucket
    → NoNul b
    → (apply_delete_bucket s bucket).1 ≡ success
    → (has bucket (apply_delete_bucket s bucket).0.buckets ≡ false)
      × (lookup (object_map_key b k) (apply_delete_bucket s bucket).0.objects
          ≡ (if b == bucket then none else lookup (object_map_key b k) s.objects))
unfolding apply_delete_bucket
lookup-delete_bucket s bucket b k v plain nb nc ok = ground (
  arith,
  lookup-erase bucket bucket s.buckets,
  ==_iff bucket bucket,
  lookup-erase_where (in_bucket bucket) (object_map_key b k) s.objects v.unique_objects,
  erased_entry bucket b k (lookup (object_map_key b k) s.objects) nb nc
      (λ (meta : ObjectMeta) (e : lookup (object_map_key b k) s.objects ≡ some meta).
        placed_entry s b k meta v plain e),
)

object_map_key_collision :
    (a b k : Text) → object_map_key a (b ++ 0 ∷ k) ≡ object_map_key (a ++ 0 ∷ b) k
unfolding object_map_key
object_map_key_collision a b k = sym (append_assoc a (0 ∷ b) (0 ∷ k))

-- Where a bucket's name holds NUL, an accepted write to it is found under the bucket that is named
-- by the part before the NUL, in place of whatever that bucket stored there.
pub upsert_crosses_buckets :
    (s : State) (meta : ObjectMeta) (a b : Text)
    → meta.bucket ≡ a ++ 0 ∷ b
    → invalid_object a (b ++ 0 ∷ meta.key) ≡ false
    → (apply_upsert_object s meta).1 ≡ success
    → lookup_object_meta (apply_upsert_object s meta).0 a (b ++ 0 ∷ meta.key)
      ≡ answer (found_object (some (record meta { state = object_state_committed })))
unfolding apply_upsert_object lookup_object_meta check_object
upsert_crosses_buckets s meta a b e valid ok =
    let k : object_map_key a (b ++ 0 ∷ meta.key) ≡ object_map_key meta.bucket meta.key =
      object_map_key_collision a b meta.key ∙ ap (λ t. object_map_key t meta.key) (sym e) in
    ground (
      arith,
      k,
      lookup-insert (object_map_key meta.bucket meta.key) (object_map_key meta.bucket meta.key)
          (record meta { state = object_state_committed }) s.objects,
      ==_iff (object_map_key meta.bucket meta.key) (object_map_key meta.bucket meta.key),
    )
