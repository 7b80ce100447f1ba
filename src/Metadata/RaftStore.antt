-- ===== src/Metadata/RaftStore.antt =====
-- internal/metadata/raft_store.go: the calls of a MetadataStore as proposals and reads of the
-- replicated state machine (internal/raft/metadata_runtime.go). The proposals and reads are those
-- that the node host carries out: timeouts and lost leaders are not part of the model.
use filpe.Prelude.{ℕ, Bool, List, []}
use filpe.Prelude.Results.{Result, ok, err}
use filpe.Prelude.Int.{pos}
use filpe.Prelude.Texts.{Text}
use filpe.Model.{
  ShardPlacement, ObjectMeta, object_state_pending, object_state_committed, zero_bucket,
  zero_object,
}
use filpe.Metadata.{
  MetadataError, bad_request, bucket_exists, bucket_not_found, object_not_found, BlobRef,
}
use filpe.Raft.Types
use filpe.Raft.Types.{
  Code, CommandType, MetadataBlobRef, MetadataCommand, MetadataResult, MetadataEnvelope,
}
use filpe.Raft.Commands.{State, apply_metadata_command}
use filpe.Raft.Queries.{
  lookup_bucket_exists, lookup_list_object_metas, lookup_list_staged_object_metas,
  lookup_object_meta, lookup_blob_ref,
}

-- mapRaftError: an answer, or the error of a code.
unfoldable pub map_raft_error : {A : Type 0} → Code → A → Result MetadataError A
map_raft_error Types.success a = ok a
map_raft_error Types.bad_request a = err bad_request
map_raft_error Types.bucket_exists a = err bucket_exists
map_raft_error Types.bucket_not_found a = err bucket_not_found
map_raft_error Types.object_not_found a = err object_not_found

-- ProposeMetadata of a command that is committed.
unfoldable pub propose :
    {A : Type 0} → State → MetadataCommand → (MetadataResult → A) → State × Result MetadataError A
unfolding map_raft_error
propose s command answer =
    let applied = apply_metadata_command s command in
    (applied.0, map_raft_error applied.2 (answer applied.1))

-- ReadMetadata
unfoldable pub read :
    {A : Type 0} → MetadataEnvelope → (MetadataResult → A) → Result MetadataError A
unfolding map_raft_error
read envelope answer = map_raft_error envelope.error (answer envelope.result)

-- `MetadataCommand{Type: type_}`
abbrev pub command : CommandType → MetadataCommand
command type_ = record {
  type_ = type_;
  bucket = [];
  key = [];
  bucket_meta = zero_bucket;
  meta = zero_object;
  hash = [];
  path = [];
  size = pos 0;
  shard_placements = [];
  shard_checksums = [];
  shard_sizes = [];
}

abbrev nothing : MetadataResult → Unit {0}
nothing result = tt

abbrev pub found : MetadataResult → ObjectMeta × Bool
found result = (result.object, result.object_exists)

unfoldable pub create_bucket : State → Text → ℕ → State × Result MetadataError (Unit {0})
unfolding propose
create_bucket s bucket now =
    propose s
      (record (command Types.create_bucket) {
        bucket_meta = record { name = bucket; created_at = now };
      })
      nothing

unfoldable pub delete_bucket : State → Text → State × Result MetadataError (Unit {0})
unfolding propose
delete_bucket s bucket =
    propose s (record (command Types.delete_bucket) { bucket = bucket }) nothing

unfoldable pub stage_object_meta : State → ObjectMeta → State × Result MetadataError (Unit {0})
unfolding propose
stage_object_meta s meta =
    propose s
      (record (command Types.stage_object_meta) {
        meta = record meta { state = object_state_pending };
      })
      nothing

unfoldable pub upsert_object_meta : State → ObjectMeta → State × Result MetadataError (Unit {0})
unfolding propose
upsert_object_meta s meta =
    propose s
      (record (command Types.upsert_object_meta) {
        meta = record meta { state = object_state_committed };
      })
      nothing

unfoldable pub delete_staged_object_meta :
    State → Text → Text → State × Result MetadataError (ObjectMeta × Bool)
unfolding propose
delete_staged_object_meta s bucket key =
    propose s (record (command Types.delete_staged_object_meta) { bucket = bucket; key = key })
      found

unfoldable pub delete_object_meta :
    State → Text → Text → State × Result MetadataError (ObjectMeta × Bool)
unfolding propose
delete_object_meta s bucket key =
    propose s (record (command Types.delete_object_meta) { bucket = bucket; key = key }) found

-- CreateBlobRef takes the fields of the reference one by one.
unfoldable pub create_blob_ref : State → BlobRef → State × Result MetadataError (Unit {0})
unfolding propose
create_blob_ref s ref =
    propose s
      (record (command Types.create_blob_ref) {
        hash = ref.hash;
        path = ref.path;
        size = ref.size;
        shard_placements = ref.shard_placements;
        shard_checksums = ref.shard_checksums;
        shard_sizes = ref.shard_sizes;
      })
      nothing

unfoldable pub update_blob_ref_placements :
    State → Text → List ShardPlacement → State × Result MetadataError (Unit {0})
unfolding propose
update_blob_ref_placements s hash placements =
    propose s
      (record (command Types.update_blob_ref_placements) {
        hash = hash;
        shard_placements = placements;
      })
      nothing

unfoldable pub increase_blob_ref : State → Text → State × Result MetadataError (Unit {0})
unfolding propose
increase_blob_ref s hash =
    propose s (record (command Types.increase_blob_ref) { hash = hash }) nothing

unfoldable pub decrease_blob_ref : State → Text → State × Result MetadataError (Text × Bool)
unfolding propose
decrease_blob_ref s hash =
    propose s (record (command Types.decrease_blob_ref) { hash = hash })
      (λ result. (result.blob_path, result.blob_removed))

unfoldable pub from_raft_blob_ref : MetadataBlobRef → BlobRef
from_raft_blob_ref ref = record {
  hash = ref.hash;
  path = ref.path;
  shard_placements = ref.shard_placements;
  shard_checksums = ref.shard_checksums;
  shard_sizes = ref.shard_sizes;
  ref_count = ref.ref_count;
  size = ref.size;
}

unfoldable pub bucket_exists_in : State → Text → Result MetadataError Bool
unfolding read
bucket_exists_in s bucket = read (lookup_bucket_exists s bucket) (λ result. result.bucket_exists_)

unfoldable pub get_object_meta : State → Text → Text → Result MetadataError (ObjectMeta × Bool)
unfolding read
get_object_meta s bucket key = read (lookup_object_meta s bucket key) found

unfoldable pub get_blob_ref : State → Text → Result MetadataError (BlobRef × Bool)
unfolding read from_raft_blob_ref
get_blob_ref s hash =
    read (lookup_blob_ref s hash) (λ result. (from_raft_blob_ref result.blob, result.blob_exists))

unfoldable pub list_object_metas : State → Text → Text → Result MetadataError (List ObjectMeta)
unfolding read
list_object_metas s bucket prefix =
    read (lookup_list_object_metas s bucket prefix) (λ result. result.objects)

unfoldable pub list_staged_object_metas :
    State → Text → Text → Result MetadataError (List ObjectMeta)
unfolding read
list_staged_object_metas s bucket prefix =
    read (lookup_list_staged_object_metas s bucket prefix) (λ result. result.objects)
