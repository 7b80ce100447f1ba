-- ===== src/Raft/Commands.antt =====
-- internal/raft/state_machine_commands.go and state_machine_blob.go: what a committed command does
-- to the metadata. Each method returns the new state beside its result; the map that an early
-- return leaves alone is returned as it was.
use filpe.Prelude.{
  Bool, true, ◌||◌, List, [], ◌∷◌, ◌++◌, none, some, if◌then◌else◌, ◌==◌, list_equality,
  number_equality,
}
use filpe.Prelude.Int.{pos, ltb_ℤ}
use filpe.Prelude.Texts.{Text, trim_space, is_empty}
use filpe.Prelude.Words.{int64_add, int64_sub}
use filpe.Prelude.Maps.{lookup, insert, erase, erase_where, has}
use filpe.Model.{Bucket, ShardPlacement, ObjectMeta, object_state_pending, object_state_committed}
use filpe.Raft.Types.{
  Code, success, bad_request, bucket_exists, bucket_not_found, object_not_found, CommandType,
  create_bucket, delete_bucket, stage_object_meta, upsert_object_meta, delete_staged_object_meta,
  delete_object_meta, create_blob_ref, update_blob_ref_placements, increase_blob_ref,
  decrease_blob_ref, unknown_command, MetadataBlobRef, MetadataCommand, MetadataResult,
  RaftStateMachine, zero_result,
}

unfoldable pub invalid_name : Text → Bool
invalid_name value = is_empty (trim_space value)

unfoldable pub invalid_object : Text → Text → Bool
invalid_object bucket key = invalid_name bucket || is_empty (trim_space key)

unfoldable pub object_map_key : Text → Text → Text
object_map_key bucket key = bucket ++ 0 ∷ key

-- The clones of slices: a copy has the same entries.
abbrev pub clone {ℓ} : {A : Type ℓ} → List A → List A
clone [] = []
clone (x ∷ xs) = x ∷ xs

abbrev pub State : Type 0
State = RaftStateMachine

-- The name under which a bucket is created.
unfoldable pub bucket_name : Text → Bucket → Text
bucket_name bucket bucket_meta = if is_empty bucket_meta.name then bucket else bucket_meta.name

unfoldable pub apply_create_bucket : State → Text → Bucket → State × Code
unfolding bucket_name
apply_create_bucket s bucket bucket_meta =
    let name = bucket_name bucket bucket_meta in
    if invalid_name name
    then (s, bad_request)
    else if has name s.buckets
    then (s, bucket_exists)
    else (
      record s { buckets = insert name (record bucket_meta { name = name }) s.buckets },
      success,
    )

abbrev pub in_bucket : Text → ObjectMeta → Bool
in_bucket bucket meta = meta.bucket == bucket

unfoldable pub apply_delete_bucket : State → Text → State × Code
apply_delete_bucket s bucket =
    if invalid_name bucket
    then (s, bad_request)
    else if has bucket s.buckets
    then (
      record s {
        buckets = erase bucket s.buckets;
        objects = erase_where (in_bucket bucket) s.objects;
        staged_objects = erase_where (in_bucket bucket) s.staged_objects;
      },
      success,
    )
    else (s, bucket_not_found)

-- The checks that `upsertObjectMeta` and `stageObjectMeta` share.
unfoldable pub check_object : State → ObjectMeta → Code
check_object s meta =
    if invalid_object meta.bucket meta.key || invalid_name meta.hash
    then bad_request
    else if has meta.bucket s.buckets
    then success
    else bucket_not_found

unfoldable pub apply_upsert_object : State → ObjectMeta → State × Code
apply_upsert_object s meta = elim (check_object s meta) [
  | success ↦ (
    record s {
      objects =
          insert (object_map_key meta.bucket meta.key)
            (record meta { state = object_state_committed }) s.objects;
    },
    success,
  )
  | code ↦ (s, code)
]

unfoldable pub apply_stage_object : State → ObjectMeta → State × Code
apply_stage_object s meta = elim (check_object s meta) [
  | success ↦ (
    record s {
      staged_objects =
          insert (object_map_key meta.bucket meta.key)
            (record meta { state = object_state_pending }) s.staged_objects;
    },
    success,
  )
  | code ↦ (s, code)
]

abbrev pub object_result : ObjectMeta → MetadataResult
object_result meta = record zero_result { object = meta; object_exists = true }

unfoldable pub apply_delete_staged : State → Text → Text → State × MetadataResult × Code
apply_delete_staged s bucket key =
    if invalid_object bucket key
    then (s, zero_result, bad_request)
    else elim (lookup (object_map_key bucket key) s.staged_objects) [
      | none ↦ (s, zero_result, success)
      | some meta ↦ (
        record s { staged_objects = erase (object_map_key bucket key) s.staged_objects },
        object_result meta,
        success,
      )
    ]

unfoldable pub apply_delete_object : State → Text → Text → State × MetadataResult × Code
apply_delete_object s bucket key =
    if invalid_object bucket key
    then (s, zero_result, bad_request)
    else elim (lookup (object_map_key bucket key) s.objects) [
      | none ↦ (s, zero_result, success)
      | some meta ↦ (
        record s { objects = erase (object_map_key bucket key) s.objects },
        object_result meta,
        success,
      )
    ]

abbrev pub set_ref : State → Text → MetadataBlobRef → State
set_ref s hash ref = record s { blob_refs = insert hash ref s.blob_refs }

-- `ref.RefCount++`
abbrev pub increment : MetadataBlobRef → MetadataBlobRef
increment ref = record ref { ref_count = int64_add ref.ref_count (pos 1) }

unfoldable pub new_blob_ref : MetadataCommand → MetadataBlobRef
new_blob_ref cmd = record {
  hash = cmd.hash;
  path = cmd.path;
  shard_placements = clone cmd.shard_placements;
  shard_checksums = clone cmd.shard_checksums;
  shard_sizes = clone cmd.shard_sizes;
  ref_count = pos 1;
  size = cmd.size;
}

-- `createBlobRef` takes the fields of the command one by one.
unfoldable pub apply_create_blob_ref : State → MetadataCommand → State × Code
apply_create_blob_ref s cmd =
    if invalid_name cmd.hash || is_empty (trim_space cmd.path)
    then (s, bad_request)
    else elim (lookup cmd.hash s.blob_refs) [
      | some ref ↦ (set_ref s cmd.hash (increment ref), success)
      | none ↦ (set_ref s cmd.hash (new_blob_ref cmd), success)
    ]

unfoldable pub apply_increase_blob_ref : State → Text → State × Code
apply_increase_blob_ref s hash =
    if invalid_name hash then (s, bad_request) else elim (lookup hash s.blob_refs) [
      | none ↦ (s, object_not_found)
      | some ref ↦ (set_ref s hash (increment ref), success)
    ]

unfoldable pub apply_update_placements : State → Text → List ShardPlacement → State × Code
apply_update_placements s hash placements =
    if invalid_name hash then (s, bad_request) else elim (lookup hash s.blob_refs) [
      | none ↦ (s, object_not_found)
      | some ref ↦ (set_ref s hash (record ref { shard_placements = clone placements }), success)
    ]

unfoldable pub apply_decrease_blob_ref : State → Text → State × MetadataResult × Code
apply_decrease_blob_ref s hash =
    if invalid_name hash then (s, zero_result, bad_request) else elim (lookup hash s.blob_refs) [
      | none ↦ (s, zero_result, success)
      | some ref ↦
          if ltb_ℤ (pos 1) ref.ref_count
          then (
            set_ref s hash (record ref { ref_count = int64_sub ref.ref_count (pos 1) }),
            zero_result,
            success,
          )
          else (
            record s { blob_refs = erase hash s.blob_refs },
            record zero_result { blob_path = ref.path; blob_removed = true },
            success,
          )
    ]

abbrev pub plain : State × Code → State × MetadataResult × Code
plain (s, code) = (s, zero_result, code)

unfoldable pub dispatch : CommandType → State → MetadataCommand → State × MetadataResult × Code
dispatch create_bucket s cmd = plain (apply_create_bucket s cmd.bucket cmd.bucket_meta)
dispatch delete_bucket s cmd = plain (apply_delete_bucket s cmd.bucket)
dispatch stage_object_meta s cmd = plain (apply_stage_object s cmd.meta)
dispatch upsert_object_meta s cmd = plain (apply_upsert_object s cmd.meta)
dispatch delete_staged_object_meta s cmd = apply_delete_staged s cmd.bucket cmd.key
dispatch delete_object_meta s cmd = apply_delete_object s cmd.bucket cmd.key
dispatch create_blob_ref s cmd = plain (apply_create_blob_ref s cmd)
dispatch update_blob_ref_placements s cmd =
    plain (apply_update_placements s cmd.hash cmd.shard_placements)
dispatch increase_blob_ref s cmd = plain (apply_increase_blob_ref s cmd.hash)
dispatch decrease_blob_ref s cmd = apply_decrease_blob_ref s cmd.hash
dispatch (unknown_command name) s cmd = (s, zero_result, bad_request)

-- The three switches tried in turn.
unfoldable pub apply_metadata_command : State → MetadataCommand → State × MetadataResult × Code
apply_metadata_command s cmd = dispatch cmd.type_ s cmd
