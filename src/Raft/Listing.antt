-- ===== src/Raft/Listing.antt =====
-- What the listings of the state machine hold (internal/raft/state_machine_commands.go and
-- state_machine_staged.go).
use mathlib.Core.List.{Mem}
use mathlib.Core.List.Perm
use mathlib.Core.Logic.Iff
use filpe.Prelude.{
  ◌≡◌, sym, ◌↔◌, true, false, some, [], ◌∷◌, arith, ◌⊎◌, ==_iff, list_equality, number_equality,
}
use filpe.Prelude.Texts.{Text, has_prefix, text_lt, text_lt_irrefl, text_lt_trans}
use filpe.Prelude.Maps.{lookup, values}
use filpe.Prelude.Sorting.{IsSorted, sort_by-IsSorted, sort_by-perm}
use filpe.Prelude.Members.{mem-filterb, mem-values}
use filpe.Model.{Bucket, ObjectMeta}
use filpe.Raft.Commands.{State, object_map_key}
use filpe.Raft.Queries.{
  bucket_less, key_less, location_less, listed_buckets, listed_objects, listed_staged_objects,
  matches_object, matches_staged_object,
}
use filpe.Raft.Invariant.{Inv}

ObjectMeta-set : IsSet ObjectMeta
ObjectMeta-set = hlevel

Bucket-set : IsSet Bucket
Bucket-set = hlevel

text_lt_asym : (a b : Text) → text_lt a b ≡ true → text_lt b a ≡ false
text_lt_asym a b h = ground (arith, text_lt_trans a b a, text_lt_irrefl a)

location_asym : (a b : ObjectMeta) → location_less a b ≡ true → location_less b a ≡ false
location_asym a b h = ground (
  arith,
  text_lt_asym a.key b.key,
  text_lt_asym a.bucket b.bucket,
  ==_iff a.bucket b.bucket,
  ==_iff b.bucket a.bucket,
)

-- The listing of buckets is sorted by name and holds exactly the stored buckets.
pub mem-listed_buckets :
    (s : State) (bucket : Bucket)
    → Inv s
    → IsSorted bucket_less (listed_buckets s)
      × (Mem bucket (listed_buckets s) ↔ (lookup bucket.name s.buckets ≡ some bucket))
unfolding listed_buckets
mem-listed_buckets s bucket v = (
  sort_by-IsSorted bucket_less (λ a b. text_lt_asym a.name b.name) (values s.buckets),
  Iff.trans (Perm.mem_iff (sort_by-perm bucket_less (values s.buckets))) (
      mem-values (λ b. b.name) Bucket-set bucket s.buckets v.unique_buckets
        (λ k b found. sym (v.buckets k b found).same)),
)

matches_object_iff :
    (bucket prefix : Text) (meta : ObjectMeta)
    → (matches_object bucket prefix meta ≡ true)
      ↔ ((meta.bucket ≡ bucket) × (has_prefix meta.key prefix ≡ true))
matches_object_iff bucket prefix meta = ground (arith, ==_iff meta.bucket bucket)

-- The listing of a bucket's objects is sorted by key and holds exactly the objects that are stored
-- in the bucket under a key with the prefix.
pub mem-listed_objects :
    (s : State) (bucket prefix : Text) (meta : ObjectMeta)
    → Inv s
    → IsSorted key_less (listed_objects s bucket prefix)
      × (Mem meta (listed_objects s bucket prefix) ↔ (
          (lookup (object_map_key meta.bucket meta.key) s.objects ≡ some meta)
          × ((meta.bucket ≡ bucket) × (has_prefix meta.key prefix ≡ true))))
unfolding listed_objects
mem-listed_objects s bucket prefix meta v = (
  sort_by-IsSorted key_less (λ a b. text_lt_asym a.key b.key) _,
  Iff.trans (Perm.mem_iff (sort_by-perm key_less _)) (
      Iff.trans (mem-filterb (matches_object bucket prefix) meta (values s.objects)) (
        Iff.and
          (mem-values (λ m. object_map_key m.bucket m.key) ObjectMeta-set meta s.objects
            v.unique_objects (λ k m found. (v.objects k m found).keyed))
          (matches_object_iff bucket prefix meta))),
)

matches_staged_iff :
    (bucket prefix : Text) (meta : ObjectMeta)
    → (matches_staged_object meta bucket prefix ≡ true)
      ↔ (((bucket ≡ []) ⊎ (meta.bucket ≡ bucket)) × (has_prefix meta.key prefix ≡ true))
unfolding matches_staged_object
matches_staged_iff [] [] meta = ground arith
matches_staged_iff [] (p ∷ ps) meta = ground arith
matches_staged_iff (b ∷ bs) [] meta = ground (arith, ==_iff meta.bucket (b ∷ bs))
matches_staged_iff (b ∷ bs) (p ∷ ps) meta = ground (arith, ==_iff meta.bucket (b ∷ bs))

-- The listing of staged objects is sorted by bucket and key and holds exactly the staged objects
-- under a key with the prefix, of the bucket or, where that is empty, of every bucket.
pub mem-listed_staged_objects :
    (s : State) (bucket prefix : Text) (meta : ObjectMeta)
    → Inv s
    → IsSorted location_less (listed_staged_objects s bucket prefix)
      × (Mem meta (listed_staged_objects s bucket prefix) ↔ (
          (lookup (object_map_key meta.bucket meta.key) s.staged_objects ≡ some meta)
          × (((bucket ≡ []) ⊎ (meta.bucket ≡ bucket)) × (has_prefix meta.key prefix ≡ true))))
unfolding listed_staged_objects
mem-listed_staged_objects s bucket prefix meta v = (
  sort_by-IsSorted location_less location_asym _,
  Iff.trans (Perm.mem_iff (sort_by-perm location_less _)) (
      Iff.trans
        (mem-filterb (λ m. matches_staged_object m bucket prefix) meta (values s.staged_objects))
        (Iff.and
          (mem-values (λ m. object_map_key m.bucket m.key) ObjectMeta-set meta s.staged_objects
            v.unique_staged (λ k m found. (v.staged k m found).keyed))
          (matches_staged_iff bucket prefix meta))),
)
