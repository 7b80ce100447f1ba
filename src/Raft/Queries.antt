-- ===== src/Raft/Queries.antt =====
-- internal/raft/state_machine_commands.go, state_machine_staged.go and state_machine_blob.go: the
-- read-only queries on the metadata.
use filpe.Prelude.{
  Bool, true, false, not, ◌&&◌, ◌||◌, List, [], ◌∷◌, Option, none, some, if◌then◌else◌, ◌==◌,
  list_equality, number_equality, filterb,
}
use filpe.Prelude.Texts.{Text, is_empty, has_prefix, text_lt}
use filpe.Prelude.Maps.{Map, lookup, has, values}
use filpe.Prelude.Sorting.{sort_by}
use filpe.Model.{Bucket, ObjectMeta}
use filpe.Raft.Types.{
  Code, success, bad_request, bucket_not_found, QueryType, list_buckets, bucket_exists,
  list_object_metas, list_staged_object_metas, list_blob_refs, get_object_meta, get_blob_ref,
  unknown_query, MetadataBlobRef, MetadataQuery, MetadataResult, MetadataEnvelope, zero_result,
  zero_blob_ref,
}
use filpe.Raft.Commands.{State, invalid_name, invalid_object, object_map_key, clone, in_bucket}

abbrev pub bucket_less : Bucket → Bucket → Bool
bucket_less left right = text_lt left.name right.name

unfoldable pub listed_buckets : State → List Bucket
listed_buckets s = sort_by bucket_less (values s.buckets)

abbrev pub key_less : ObjectMeta → ObjectMeta → Bool
key_less left right = text_lt left.key right.key

-- The bucket's objects whose key has the prefix.
abbrev pub matches_object : Text → Text → ObjectMeta → Bool
matches_object bucket prefix meta = in_bucket bucket meta && has_prefix meta.key prefix

unfoldable pub listed_objects : State → Text → Text → List ObjectMeta
listed_objects s bucket prefix =
    sort_by key_less (filterb (matches_object bucket prefix) (values s.objects))

unfoldable pub matches_staged_object : ObjectMeta → Text → Text → Bool
matches_staged_object meta bucket prefix =
    if not (is_empty bucket) && not (in_bucket bucket meta)
    then false
    else is_empty prefix || has_prefix meta.key prefix

abbrev pub location_less : ObjectMeta → ObjectMeta → Bool
location_less left right =
    if left.bucket == right.bucket
    then text_lt left.key right.key
    else text_lt left.bucket right.bucket

unfoldable pub listed_staged_objects : State → Text → Text → List ObjectMeta
listed_staged_objects s bucket prefix =
    sort_by location_less
      (filterb (λ meta. matches_staged_object meta bucket prefix) (values s.staged_objects))

-- Each entry under the hash that is its key.
unfoldable pub listed_blob_refs : Map Text MetadataBlobRef → List MetadataBlobRef
listed_blob_refs [] = []
listed_blob_refs ((hash, ref) ∷ refs) =
    record ref {
      hash = hash;
      shard_placements = clone ref.shard_placements;
      shard_checksums = clone ref.shard_checksums;
      shard_sizes = clone ref.shard_sizes;
    }
    ∷ listed_blob_refs refs

abbrev pub answer : MetadataResult → MetadataEnvelope
answer result = record { result = result; error = success }

abbrev pub failure : Code → MetadataEnvelope
failure code = record { result = zero_result; error = code }

unfoldable pub lookup_bucket_exists : State → Text → MetadataEnvelope
lookup_bucket_exists s bucket =
    if invalid_name bucket
    then failure bad_request
    else answer (record zero_result { bucket_exists_ = has bucket s.buckets })

unfoldable pub lookup_list_object_metas : State → Text → Text → MetadataEnvelope
unfolding listed_objects
lookup_list_object_metas s bucket prefix =
    if has bucket s.buckets
    then answer (record zero_result { objects = listed_objects s bucket prefix })
    else failure bucket_not_found

unfoldable pub lookup_list_staged_object_metas : State → Text → Text → MetadataEnvelope
unfolding listed_staged_objects
lookup_list_staged_object_metas s bucket prefix =
    if not (is_empty bucket) && not (has bucket s.buckets)
    then failure bucket_not_found
    else answer (record zero_result { objects = listed_staged_objects s bucket prefix })

-- A map read: the zero value and `false` where the key is missing.
abbrev pub found_object : Option ObjectMeta → MetadataResult
found_object none = zero_result
found_object (some meta) = record zero_result { object = meta; object_exists = true }

unfoldable pub lookup_object_meta : State → Text → Text → MetadataEnvelope
lookup_object_meta s bucket key =
    if invalid_object bucket key
    then failure bad_request
    else answer (found_object (lookup (object_map_key bucket key) s.objects))

abbrev pub found_blob : Text → Option MetadataBlobRef → MetadataResult
found_blob hash none = record zero_result { blob = record zero_blob_ref { hash = hash } }
found_blob hash (some ref) = record zero_result {
  blob = record ref { hash = hash };
  blob_exists = true;
}

unfoldable pub lookup_blob_ref : State → Text → MetadataEnvelope
lookup_blob_ref s hash =
    if invalid_name hash
    then failure bad_request
    else answer (found_blob hash (lookup hash s.blob_refs))

dispatch_query : QueryType → State → MetadataQuery → MetadataEnvelope
unfolding listed_buckets lookup_bucket_exists lookup_list_object_metas
    lookup_list_staged_object_metas listed_blob_refs lookup_object_meta lookup_blob_ref
dispatch_query list_buckets s query = answer (record zero_result { buckets = listed_buckets s })
dispatch_query bucket_exists s query = lookup_bucket_exists s query.bucket
dispatch_query list_object_metas s query = lookup_list_object_metas s query.bucket query.prefix
dispatch_query list_staged_object_metas s query =
    lookup_list_staged_object_metas s query.bucket query.prefix
dispatch_query list_blob_refs s query =
    answer (record zero_result { blobs = listed_blob_refs s.blob_refs })
dispatch_query get_object_meta s query = lookup_object_meta s query.bucket query.key
dispatch_query get_blob_ref s query = lookup_blob_ref s query.hash
dispatch_query (unknown_query name) s query = failure bad_request

unfoldable pub lookup_metadata_query : State → MetadataQuery → MetadataEnvelope
unfolding dispatch_query
lookup_metadata_query s query = dispatch_query query.type_ s query
