-- ===== src/Model.antt =====
-- internal/model/model.go: the data that the components share. Times are counted from Go's zero
-- time, so `0` is `time.Time{}`; a nil slice or map and an empty one are the same list.
use filpe.Prelude.{ℕ, Bool, List, [], Option, none}
use filpe.Prelude.Int.{ℤ, pos}
use filpe.Prelude.Texts.{Text, codes}
use filpe.Prelude.Maps.{Map}

pub record Bucket : Type 0 where
  pub name : Text
  pub created_at : ℕ

pub record ShardPlacement : Type 0 where
  pub index : ℤ
  pub node_id : Text
  pub node_address : Text
  pub local : Bool

pub record WriteIntent : Type 0 where
  pub id : Text
  pub stage : Text
  pub started_at : ℕ
  pub updated_at : ℕ

pub record ObjectMeta : Type 0 where
  pub bucket : Text
  pub key : Text
  pub hash : Text
  pub etag : Text
  pub size : ℤ
  pub content_type : Text
  pub cache_control : Text
  pub content_disposition : Text
  pub content_encoding : Text
  pub content_language : Text
  pub user_metadata : Map Text Text
  pub updated_at : ℕ
  pub state : Text
  pub write_intent : Option WriteIntent
  pub shard_placements : List ShardPlacement
  pub shard_checksums : List Text
  pub shard_sizes : List ℤ

abbrev pub object_state_pending : Text
object_state_pending = codes "pending"

abbrev pub object_state_committed : Text
object_state_committed = codes "committed"

abbrev pub zero_bucket : Bucket
zero_bucket = record { name = []; created_at = 0 }

abbrev pub zero_object : ObjectMeta
zero_object = record {
  bucket = [];
  key = [];
  hash = [];
  etag = [];
  size = pos 0;
  content_type = [];
  cache_control = [];
  content_disposition = [];
  content_encoding = [];
  content_language = [];
  user_metadata = [];
  updated_at = 0;
  state = [];
  write_intent = none;
  shard_placements = [];
  shard_checksums = [];
  shard_sizes = [];
}
