-- ===== src/Metadata.antt =====
-- internal/metadata: the metadata stores. kv.go, staged.go and blob_ref.go keep the metadata in
-- memory; raft_store.go passes every call to the replicated state machine.
pub mod BlobRefs
pub mod Objects
pub mod Staged
pub mod RaftStore
pub mod Agreement
mod Examples
use filpe.Prelude.{List, [], ◌∷◌, ◌++◌}
use filpe.Prelude.Maps.{Map}
use filpe.Prelude.Int.{ℤ}
use filpe.Prelude.Texts.{Text}
use filpe.Model.{ShardPlacement, ObjectMeta}

-- The errors of kv.go.
pub data MetadataError : Type 0 where
  bad_request bucket_exists bucket_not_found object_not_found : MetadataError

pub record BlobRef : Type 0 where
  pub hash : Text
  pub path : Text
  pub shard_placements : List ShardPlacement
  pub shard_checksums : List Text
  pub shard_sizes : List ℤ
  pub ref_count : ℤ
  pub size : ℤ

pub record InMemoryMetadata : Type 0 where
  pub buckets : Map Text (Map Text (Unit {0}))
  pub objects : Map Text ObjectMeta
  pub staged : Map Text ObjectMeta
  pub blobs : Map Text BlobRef

abbrev pub Memory : Type 0
Memory = InMemoryMetadata

unfoldable pub new_in_memory_metadata : Memory
new_in_memory_metadata = record { buckets = []; objects = []; staged = []; blobs = [] }

unfoldable pub object_id : Text → Text → Text
object_id bucket key = bucket ++ 0 ∷ key
