-- ===== src/Raft/Types.antt =====
-- internal/raft/state_machine.go: the state, commands, queries and results of the metadata state
-- machine. A `Type` or error string of the wire format is the constructor of its constant.
use filpe.Prelude.{ℕ, Bool, false, List, [], Option}
use filpe.Prelude.Int.{ℤ, pos}
use filpe.Prelude.Texts.{Text}
use filpe.Prelude.Maps.{Map}
use filpe.Model.{Bucket, ShardPlacement, ObjectMeta, zero_object}

-- The error string of an envelope: `success` is "".
pub data Code : Type 0 where
  success bad_request bucket_exists bucket_not_found object_not_found : Code

pub data CommandType : Type 0 where
  create_bucket delete_bucket stage_object_meta upsert_object_meta : CommandType
  delete_staged_object_meta delete_object_meta create_blob_ref : CommandType
  update_blob_ref_placements increase_blob_ref decrease_blob_ref : CommandType
  unknown_command : Text → CommandType

pub data QueryType : Type 0 where
  list_buckets bucket_exists list_object_metas list_staged_object_metas list_blob_refs : QueryType
  get_object_meta get_blob_ref : QueryType
  unknown_query : Text → QueryType

pub record MetadataBlobRef : Type 0 where
  pub hash : Text
  pub path : Text
  pub shard_placements : List ShardPlacement
  pub shard_checksums : List Text
  pub shard_sizes : List ℤ
  pub ref_count : ℤ
  pub size : ℤ

pub record MetadataCommand : Type 0 where
  pub type_ : CommandType
  pub bucket : Text
  pub key : Text
  pub bucket_meta : Bucket
  pub meta : ObjectMeta
  pub hash : Text
  pub path : Text
  pub size : ℤ
  pub shard_placements : List ShardPlacement
  pub shard_checksums : List Text
  pub shard_sizes : List ℤ

pub record MetadataQuery : Type 0 where
  pub type_ : QueryType
  pub bucket : Text
  pub key : Text
  pub prefix : Text
  pub hash : Text

pub record MetadataResult : Type 0 where
  pub buckets : List Bucket
  pub bucket_exists_ : Bool
  pub objects : List ObjectMeta
  pub object : ObjectMeta
  pub object_exists : Bool
  pub blobs : List MetadataBlobRef
  pub blob : MetadataBlobRef
  pub blob_exists : Bool
  pub blob_path : Text
  pub blob_removed : Bool

pub record MetadataEnvelope : Type 0 where
  pub result : MetadataResult
  pub error : Code

-- A map that the JSON text leaves out, or gives as null, is `none`.
pub record MetadataSnapshot : Type 0 where
  pub buckets : Option (Map Text Bucket)
  pub objects : Option (Map Text ObjectMeta)
  pub staged_objects : Option (Map Text ObjectMeta)
  pub blob_refs : Option (Map Text MetadataBlobRef)

pub record RaftStateMachine : Type 0 where
  pub shard_id : ℕ
  pub replica_id : ℕ
  pub closed : Bool
  pub buckets : Map Text Bucket
  pub objects : Map Text ObjectMeta
  pub staged_objects : Map Text ObjectMeta
  pub blob_refs : Map Text MetadataBlobRef

abbrev pub zero_blob_ref : MetadataBlobRef
zero_blob_ref = record {
  hash = [];
  path = [];
  shard_placements = [];
  shard_checksums = [];
  shard_sizes = [];
  ref_count = pos 0;
  size = pos 0;
}

-- `MetadataResult{}`
abbrev pub zero_result : MetadataResult
zero_result = record {
  buckets = [];
  bucket_exists_ = false;
  objects = [];
  object = zero_object;
  object_exists = false;
  blobs = [];
  blob = zero_blob_ref;
  blob_exists = false;
  blob_path = [];
  blob_removed = false;
}

unfoldable pub new_raft_state_machine : ℕ → ℕ → RaftStateMachine
new_raft_state_machine shard_id replica_id = record {
  shard_id = shard_id;
  replica_id = replica_id;
  closed = false;
  buckets = [];
  objects = [];
  staged_objects = [];
  blob_refs = [];
}
