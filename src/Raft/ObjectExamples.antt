-- ===== src/Raft/ObjectExamples.antt =====
-- The object operations of the state machine at work.
use mathlib.Core.List.{Mem}
use filpe.Prelude.{
  ◌≡◌, refl, ◌↔◌, ◌⊎◌, true, false, none, some, [], ◌∷◌, ◌++◌, arith, list_equality,
  number_equality,
}
use filpe.Prelude.Texts.{Text, codes, trim_space, has_prefix}
use filpe.Prelude.Maps.{lookup, has}
use filpe.Prelude.Sorting.{IsSorted}
use filpe.Model.{ObjectMeta, object_state_committed}
use filpe.Raft.Types.{success, zero_result}
use filpe.Raft.Commands.{
  State, invalid_name, invalid_object, object_map_key, check_object, apply_delete_bucket,
  apply_upsert_object, apply_delete_object,
}
use filpe.Raft.Queries.{
  answer, found_object, lookup_object_meta, listed_buckets, listed_objects, listed_staged_objects,
  bucket_less, key_less, location_less,
}
use filpe.Raft.Objects.{
  NoNul, PlainBuckets, lookup-upsert, lookup-delete_object, lookup-delete_bucket,
  upsert_crosses_buckets,
}
use filpe.Raft.Listing.{mem-listed_buckets, mem-listed_objects, mem-listed_staged_objects}
use filpe.Raft.Examples.{photos, cat, stored, stored-Inv}

photos-NoNul : NoNul photos
photos-NoNul = ground arith

lookup-upsert_example :
    lookup_object_meta (apply_upsert_object stored cat).0 photos (codes "dog")
    ≡ lookup_object_meta stored photos (codes "dog")
unfolding apply_upsert_object check_object invalid_name invalid_object trim_space lookup
lookup-upsert_example = lookup-upsert stored cat photos (codes "dog") photos-NoNul photos-NoNul refl

lookup-delete_object_example :
    let (s', result, code) = apply_delete_object stored photos (codes "cat") in
    (code ≡ success)
    × (answer result ≡ lookup_object_meta stored photos (codes "cat"))
    × (lookup_object_meta s' photos (codes "cat") ≡ answer zero_result)
unfolding invalid_name invalid_object trim_space
lookup-delete_object_example =
    lookup-delete_object stored photos (codes "cat") photos (codes "cat") photos-NoNul photos-NoNul
      refl

stored-PlainBuckets : PlainBuckets stored
unfolding lookup
stored-PlainBuckets k b found = ground (arith, photos-NoNul)

lookup-delete_bucket_example :
    (has photos (apply_delete_bucket stored photos).0.buckets ≡ false)
    × (lookup (object_map_key photos (codes "cat")) (apply_delete_bucket stored photos).0.objects
        ≡ none)
unfolding apply_delete_bucket invalid_name trim_space lookup
lookup-delete_bucket_example =
    lookup-delete_bucket stored photos photos (codes "cat") stored-Inv stored-PlainBuckets
      photos-NoNul photos-NoNul refl

abbrev odd_bucket : Text
odd_bucket = photos ++ 0 ∷ codes "x"

abbrev odd_cat : ObjectMeta
odd_cat = record cat { bucket = odd_bucket }

abbrev odd_state : State
odd_state = record stored {
  buckets = (odd_bucket, record { name = odd_bucket; created_at = 0 }) ∷ [];
}

upsert_crosses_buckets_example :
    lookup_object_meta
      (apply_upsert_object odd_state odd_cat).0
      photos
      (codes "x" ++ 0 ∷ codes "cat")
    ≡ answer (found_object (some (record odd_cat { state = object_state_committed })))
unfolding apply_upsert_object check_object invalid_name invalid_object trim_space lookup
upsert_crosses_buckets_example =
    upsert_crosses_buckets odd_state odd_cat photos (codes "x") refl refl refl

mem-listed_buckets_example :
    IsSorted bucket_less (listed_buckets stored)
    × (Mem (record { name = photos; created_at = 0 }) (listed_buckets stored)
        ↔ (lookup photos stored.buckets ≡ some (record { name = photos; created_at = 0 })))
mem-listed_buckets_example =
    mem-listed_buckets stored (record { name = photos; created_at = 0 }) stored-Inv

mem-listed_objects_example :
    IsSorted key_less (listed_objects stored photos (codes "c"))
    × (Mem cat (listed_objects stored photos (codes "c")) ↔ (
        (lookup (object_map_key photos (codes "cat")) stored.objects ≡ some cat)
        × ((photos ≡ photos) × (has_prefix (codes "cat") (codes "c") ≡ true))))
mem-listed_objects_example = mem-listed_objects stored photos (codes "c") cat stored-Inv

mem-listed_staged_objects_example :
    IsSorted location_less (listed_staged_objects stored [] [])
    × (Mem cat (listed_staged_objects stored [] []) ↔ (
        (lookup (object_map_key photos (codes "cat")) stored.staged_objects ≡ some cat)
        × (((◌≡◌ {A = Text} [] []) ⊎ (photos ≡ [])) × (has_prefix (codes "cat") [] ≡ true))))
mem-listed_staged_objects_example = mem-listed_staged_objects stored [] [] cat stored-Inv
