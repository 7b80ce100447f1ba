-- ===== src/Metadata/Objects.antt =====
-- internal/metadata/kv.go: buckets and objects in memory. Each method that changes the maps returns
-- them beside its result; the mutex makes each one step.
use filpe.Prelude.{
  Bool, true, false, ◌||◌, List, [], ◌∷◌, Option, none, some, if◌then◌else◌, ◌==◌, list_equality,
  number_equality, ℕ,
}
use filpe.Prelude.Results.{Result, ok, err, ◌>>◌, reject_if}
use filpe.Prelude.Texts.{Text, trim_space, is_empty, has_prefix, text_lt}
use filpe.Prelude.Maps.{Map, lookup, insert, erase, erase_where, has, keys}
use filpe.Prelude.Sorting.{sort_by}
use filpe.Model.{Bucket, ObjectMeta, object_state_committed, zero_object}
use filpe.Metadata.{
  MetadataError, bad_request, bucket_exists, bucket_not_found, object_not_found, Memory, object_id,
}
use filpe.Metadata.BlobRefs.{decrease_blob_ref}

named_at : ℕ → List Text → List Bucket
named_at now [] = []
named_at now (name ∷ names) = record { name = name; created_at = now } ∷ named_at now names

-- ListBuckets at a time.
unfoldable pub list_buckets : Memory → ℕ → List Bucket
unfolding named_at
list_buckets m now =
    sort_by (λ left right. text_lt left.name right.name) (named_at now (keys m.buckets))

unfoldable pub bucket_exists_in : Memory → Text → Result MetadataError Bool
bucket_exists_in m bucket =
    let name = trim_space bucket in
    if is_empty name then err bad_request else ok (has name m.buckets)

unfoldable pub create_bucket : Memory → Text → Memory × Result MetadataError (Unit {0})
create_bucket m bucket =
    let name = trim_space bucket in
    if is_empty name
    then (m, err bad_request)
    else if has name m.buckets
    then (m, err bucket_exists)
    else (record m { buckets = insert name [] m.buckets }, ok tt)

abbrev meta_or_zero : Option ObjectMeta → ObjectMeta
meta_or_zero none = zero_object
meta_or_zero (some meta) = meta

-- Whether DeleteBucket gives up on this error.
abbrev stops : Result MetadataError (Text × Bool) → Option MetadataError
stops (ok removed) = none
stops (err object_not_found) = none
stops (err e) = some e

-- The objects of a bucket that is deleted, key by key.
unfoldable pub delete_keys : Memory → Text → List Text → Memory × Option MetadataError
delete_keys m bucket [] = (m, none)
delete_keys m bucket (key ∷ more) =
    let id = object_id bucket key in
    let meta = meta_or_zero (lookup id m.objects) in
    let freed = decrease_blob_ref (record m { objects = erase id m.objects }) meta.hash in
    let rest = delete_keys freed.0 bucket more in
    elim (stops freed.1) [ none ↦ rest | some e ↦ (freed.0, some e) ]

abbrev pub of_bucket : Text → ObjectMeta → Bool
of_bucket bucket meta = meta.bucket == bucket

unfoldable pub delete_bucket : Memory → Text → Memory × Result MetadataError (Unit {0})
delete_bucket m bucket =
    let name = trim_space bucket in
    if is_empty name then (m, err bad_request) else elim (lookup name m.buckets) [
      | none ↦ (m, err bucket_not_found)
      | some names ↦
          (let freed = delete_keys m name (keys names) in
            elim freed.1 [
              | some e ↦ (freed.0, err e)
              | none ↦ (
                record freed.0 {
                  buckets = erase name freed.0.buckets;
                  staged = erase_where (of_bucket name) freed.0.staged;
                },
                ok tt,
              )
            ])
    ]

metas_of : Memory → Text → Text → List Text → List ObjectMeta
unfolding object_id
metas_of m bucket prefix [] = []
metas_of m bucket prefix (key ∷ more) =
    let rest = metas_of m bucket prefix more in
    if has_prefix key prefix
    then meta_or_zero (lookup (object_id bucket key) m.objects) ∷ rest
    else rest

unfoldable pub list_object_metas : Memory → Text → Text → Result MetadataError (List ObjectMeta)
unfolding metas_of
list_object_metas m bucket prefix = do
  let name = trim_space bucket
  reject_if (is_empty name) bad_request
  elim (lookup name m.buckets) [
    | none ↦ err bucket_not_found
    | some names ↦
        ok
          (sort_by (λ left right. text_lt left.key right.key) (metas_of m name prefix (keys names)))
  ]

unfoldable pub get_object_meta : Memory → Text → Text → Result MetadataError (ObjectMeta × Bool)
get_object_meta m bucket key =
    if is_empty (trim_space bucket) || is_empty (trim_space key)
    then err bad_request
    else elim (lookup (object_id (trim_space bucket) (trim_space key)) m.objects) [
      | none ↦ ok (zero_object, false)
      | some meta ↦ ok (meta, true)
    ]

abbrev pub trimmed : ObjectMeta → ObjectMeta
trimmed meta = record meta { bucket = trim_space meta.bucket; key = trim_space meta.key }

-- UpsertObjectMeta after the names are trimmed.
unfoldable pub put_object : Memory → ObjectMeta → Memory × Result MetadataError (Unit {0})
put_object m given =
    let meta = record given { state = object_state_committed } in
    if is_empty meta.bucket || is_empty meta.key
    then (m, err bad_request)
    else elim (lookup meta.bucket m.buckets) [
      | none ↦ (m, err bucket_not_found)
      | some names ↦ (
        record m {
          buckets = insert meta.bucket (insert meta.key tt names) m.buckets;
          objects = insert (object_id meta.bucket meta.key) meta m.objects;
        },
        ok tt,
      )
    ]

unfoldable pub upsert_object_meta : Memory → ObjectMeta → Memory × Result MetadataError (Unit {0})
unfolding put_object
upsert_object_meta m given = put_object m (trimmed given)

unfoldable pub without_key :
    Text → Text → Map Text (Map Text (Unit {0})) → Map Text (Map Text (Unit {0}))
without_key bucket key buckets = elim (lookup bucket buckets) [
  | none ↦ buckets
  | some names ↦ insert bucket (erase key names) buckets
]

-- DeleteObjectMeta after the names are trimmed.
unfoldable pub remove_object :
    Memory → Text → Text → Memory × Result MetadataError (ObjectMeta × Bool)
unfolding without_key
remove_object m bucket key =
    if is_empty bucket || is_empty key
    then (m, err bad_request)
    else elim (lookup (object_id bucket key) m.objects) [
      | none ↦ (m, ok (zero_object, false))
      | some meta ↦ (
        record m {
          objects = erase (object_id bucket key) m.objects;
          buckets = without_key bucket key m.buckets;
        },
        ok (meta, true),
      )
    ]

unfoldable pub delete_object_meta :
    Memory → Text → Text → Memory × Result MetadataError (ObjectMeta × Bool)
unfolding remove_object
delete_object_meta m bucket key = remove_object m (trim_space bucket) (trim_space key)
