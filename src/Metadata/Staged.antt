-- ===== src/Metadata/Staged.antt =====
-- internal/metadata/staged.go: the staged objects in memory.
use filpe.Prelude.{
  Bool, true, false, not, ◌&&◌, ◌||◌, List, none, some, if◌then◌else◌, ◌==◌, list_equality,
  number_equality, filterb,
}
use filpe.Prelude.Results.{Result, ok, err, ◌>>◌}
use filpe.Prelude.Texts.{Text, trim_space, is_empty, has_prefix, text_lt}
use filpe.Prelude.Maps.{lookup, insert, erase, has, values}
use filpe.Prelude.Sorting.{sort_by}
use filpe.Model.{ObjectMeta, object_state_pending, zero_object}
use filpe.Metadata.{MetadataError, bad_request, bucket_not_found, Memory, object_id}
use filpe.Metadata.Objects.{trimmed}

-- StageObjectMeta after the names and the hash are trimmed.
unfoldable pub put_staged : Memory → ObjectMeta → Memory × Result MetadataError (Unit {0})
put_staged m given =
    let meta = record given { state = object_state_pending } in
    if is_empty meta.bucket || is_empty meta.key || is_empty meta.hash
    then (m, err bad_request)
    else if has meta.bucket m.buckets
    then (record m { staged = insert (object_id meta.bucket meta.key) meta m.staged }, ok tt)
    else (m, err bucket_not_found)

unfoldable pub stage_object_meta : Memory → ObjectMeta → Memory × Result MetadataError (Unit {0})
unfolding put_staged
stage_object_meta m given = put_staged m (record (trimmed given) { hash = trim_space given.hash })

-- compareObjectLocation below 0
unfoldable pub location_below : ObjectMeta → ObjectMeta → Bool
location_below left right =
    if text_lt left.bucket right.bucket
    then true
    else if text_lt right.bucket left.bucket
    then false
    else text_lt left.key right.key

-- DeleteStagedObjectMeta after the names are trimmed.
unfoldable pub remove_staged :
    Memory → Text → Text → Memory × Result MetadataError (ObjectMeta × Bool)
remove_staged m bucket key =
    if is_empty bucket || is_empty key
    then (m, err bad_request)
    else elim (lookup (object_id bucket key) m.staged) [
      | none ↦ (m, ok (zero_object, false))
      | some meta ↦ (record m { staged = erase (object_id bucket key) m.staged }, ok (meta, true))
    ]

unfoldable pub delete_staged_object_meta :
    Memory → Text → Text → Memory × Result MetadataError (ObjectMeta × Bool)
unfolding remove_staged
delete_staged_object_meta m bucket key = remove_staged m (trim_space bucket) (trim_space key)

unfoldable pub validate_optional_bucket : Memory → Text → Result MetadataError (Unit {0})
validate_optional_bucket m bucket =
    if is_empty bucket || has bucket m.buckets then ok tt else err bucket_not_found

unfoldable pub matches_staged : Text → Text → ObjectMeta → Bool
matches_staged bucket prefix meta =
    if not (is_empty bucket) && not (meta.bucket == bucket)
    then false
    else is_empty prefix || has_prefix meta.key prefix

unfoldable pub list_staged_object_metas :
    Memory → Text → Text → Result MetadataError (List ObjectMeta)
unfolding validate_optional_bucket matches_staged location_below
list_staged_object_metas m bucket prefix = do
  let name = trim_space bucket
  validate_optional_bucket m name
  ok (sort_by location_below (filterb (matches_staged name prefix) (values m.staged)))
