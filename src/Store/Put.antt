-- ===== src/Store/Put.antt =====
-- internal/store/put.go, blob.go, write_intent.go and options.go: an object is put in steps over the
-- metadata and the engine, each of which may fail, and a failed put is rolled back. The temporary
-- file that the input is staged in is its bytes; the clock stands still during a call. The names of
-- user metadata are ASCII, which is what `lower` puts in lower case as strings.ToLower does.
pub mod Steps
pub mod Effects
pub mod Quiet
pub mod Prepared
pub mod Releases
pub mod Rollback
pub mod Retain
pub mod Upsert
pub mod Commit
pub mod Fresh
pub mod Safety
pub mod Whole
pub mod Dangling
pub mod Stored
pub mod Hashed
pub mod Completed
pub mod Finished
pub mod Sample
mod Examples
use filpe.Prelude.{
  ℕ, Bool, true, false, not, ◌&&◌, ◌||◌, Option, none, some, List, [], ◌∷◌, ◌++◌, if◌then◌else◌,
  ◌==◌, list_equality, number_equality, length, map,
}
use filpe.Prelude.Results.{Result, ok, err}
use filpe.Prelude.Int.{ℤ, pos, ◌-ℤ◌}
use filpe.Prelude.Words.{wrap64}
use filpe.Prelude.Decimal.{format_int}
use filpe.Prelude.Texts.{Text, codes, trim_space, is_empty, lower}
use filpe.Prelude.Maps.{Map, insert}
use filpe.Model.{ObjectMeta, WriteIntent, zero_object, object_state_pending, object_state_committed}
use filpe.Metadata.{BlobRef}
use filpe.Metadata.RaftStore
use filpe.Engine.Coder.{Bytes}
use filpe.Engine.Layouts
use filpe.Engine.Layouts.{BlobInfo, ObjectInfo, EngineConfig, etag_from_hash}
use filpe.Engine.Blobs
use filpe.Store.{StoreError, bad_request, bucket_not_found, engine_failed}
use filpe.Store.World.{
  World, M, Errors, ◌>>=◌, ◌>>◌, pure, fail, call_meta, read_meta, call_engine, wrap,
}

abbrev pub stage_metadata_staged : Text
stage_metadata_staged = codes "metadata_staged"

abbrev pub stage_blob_prepared : Text
stage_blob_prepared = codes "blob_prepared"

abbrev pub stage_layout_linked : Text
stage_layout_linked = codes "layout_linked"

abbrev pub stage_blob_retained : Text
stage_blob_retained = codes "blob_retained"

abbrev pub stage_committed : Text
stage_committed = codes "committed"

pub record PutOptions : Type 0 where
  pub content_type : Text
  pub cache_control : Text
  pub content_disposition : Text
  pub content_encoding : Text
  pub content_language : Text
  pub user_metadata : Map Text Text

-- Of names in ASCII.
unfoldable pub normalize_user_metadata : Map Text Text → Map Text Text → Map Text Text
normalize_user_metadata [] output = output
normalize_user_metadata ((given, text) ∷ input) output =
    let key = map lower (trim_space given) in
    let value = trim_space text in
    normalize_user_metadata input
      (if is_empty key || is_empty value then output else insert key value output)

unfoldable pub normalized : PutOptions → PutOptions
unfolding normalize_user_metadata
normalized opts = record {
  content_type = trim_space opts.content_type;
  cache_control = trim_space opts.cache_control;
  content_disposition = trim_space opts.content_disposition;
  content_encoding = trim_space opts.content_encoding;
  content_language = trim_space opts.content_language;
  user_metadata = normalize_user_metadata opts.user_metadata [];
}

-- PutOptions.apply
unfoldable pub apply_options : PutOptions → ObjectMeta → ObjectMeta
apply_options opts meta = record meta {
  content_type = opts.content_type;
  cache_control = opts.cache_control;
  content_disposition = opts.content_disposition;
  content_encoding = opts.content_encoding;
  content_language = opts.content_language;
  user_metadata = opts.user_metadata;
}

-- The input, and the hash of it.
pub record StagedObject : Type 0 where
  pub bytes : Bytes
  pub hash : Text
  pub size : ℤ

pub record ExistingObject : Type 0 where
  pub meta : ObjectMeta
  pub ref : BlobRef
  pub exists : Bool
  pub ref_exists : Bool

pub data BlobRefMutation : Type 0 where
  unchanged increased created : BlobRefMutation

-- The nanoseconds from Go's zero time to that of Unix.
abbrev pub unix_epoch : ℕ
unix_epoch = 62135596800000000000

-- `strconv.FormatInt(at.UnixNano(), 10)`
unfoldable pub unix_nano : ℕ → Text
unfolding wrap64 ◌-ℤ◌ format_int
unix_nano at = format_int (wrap64 (pos at -ℤ pos unix_epoch))

unfoldable pub new_write_intent : Text → Text → Text → ℕ → WriteIntent
unfolding unix_nano
new_write_intent bucket key hash now = record {
  id = bucket ++ b':' ∷ (key ++ b':' ∷ (hash ++ b':' ∷ unix_nano now));
  stage = stage_metadata_staged;
  started_at = now;
  updated_at = now;
}

unfoldable pub advance_write_intent : Option WriteIntent → Text → ℕ → WriteIntent
unfolding unix_nano
advance_write_intent none stage now = record {
  id = unix_nano now;
  stage = stage;
  started_at = now;
  updated_at = now;
}
advance_write_intent (some intent) stage now = record intent { stage = stage; updated_at = now }

unfoldable pub update_pending_write_intent : ℕ → ObjectMeta → Text → M ObjectMeta
unfolding advance_write_intent
update_pending_write_intent now given stage = do
  let meta = record given {
    write_intent = some (advance_write_intent given.write_intent stage now);
    updated_at = now;
  }
  call_meta (λ s. RaftStore.stage_object_meta s meta)
  pure meta

unfoldable pub normalize_object_location : Text → Text → M (Text × Text)
normalize_object_location given_bucket given_key w =
    let bucket = trim_space given_bucket in
    let key = trim_space given_key in
    if is_empty bucket || is_empty key then (w, err (bad_request ∷ [])) else (w, ok (bucket, key))

abbrev pub require : Bool → Errors → M (Unit {0})
require true e w = (w, ok tt)
require false e w = (w, err e)

unfoldable pub ensure_bucket_exists : Text → M (Unit {0})
ensure_bucket_exists bucket = do
  exists ← read_meta (λ s. RaftStore.bucket_exists_in s bucket)
  require exists (bucket_not_found ∷ [])

abbrev pub no_ref : BlobRef
no_ref = record {
  hash = [];
  path = [];
  shard_placements = [];
  shard_checksums = [];
  shard_sizes = [];
  ref_count = pos 0;
  size = pos 0;
}

abbrev pub no_existing : ExistingObject
no_existing = record { meta = zero_object; ref = no_ref; exists = false; ref_exists = false }

unfoldable pub existing_with : ObjectMeta × Bool → M ExistingObject
existing_with (meta, false) = pure no_existing
existing_with (meta, true) = do
  found ← read_meta (λ s. RaftStore.get_blob_ref s meta.hash)
  pure (record { meta = meta; ref = found.0; exists = true; ref_exists = found.1 })

unfoldable pub load_existing_object : Text → Text → M ExistingObject
unfolding existing_with
load_existing_object bucket key = do
  found ← read_meta (λ s. RaftStore.get_object_meta s bucket key)
  existing_with found

unfoldable pub stage_object_meta : Text → Text → PutOptions → StagedObject → ℕ → M ObjectMeta
unfolding apply_options new_write_intent etag_from_hash
stage_object_meta bucket key opts staged now = do
  let given = apply_options opts (record zero_object {
    bucket = bucket;
    key = key;
    hash = staged.hash;
    etag = etag_from_hash staged.hash;
    size = staged.size;
    updated_at = now;
    state = object_state_pending;
  })
  let meta = record given { write_intent = some (new_write_intent bucket key staged.hash now) }
  call_meta (λ s. RaftStore.stage_object_meta s meta)
  pure meta

unfoldable pub delete_staged_object_meta : Text → Text → M (Unit {0})
delete_staged_object_meta bucket key = do
  call_meta (λ s. RaftStore.delete_staged_object_meta s bucket key)
  pure tt

-- The blob of a reference.
unfoldable pub blob_of_ref : Text → Text → BlobRef → BlobInfo
blob_of_ref hash etag ref = record {
  hash = hash;
  etag = etag;
  size = ref.size;
  shard_dir = ref.path;
  shard_placements = ref.shard_placements;
  shard_checksums = ref.shard_checksums;
  shard_sizes = ref.shard_sizes;
}

unfoldable pub object_meta_from_info : ObjectInfo → ObjectMeta
object_meta_from_info info = record zero_object {
  bucket = info.meta.bucket;
  key = info.meta.key;
  hash = info.meta.hash;
  etag = info.meta.etag;
  size = info.meta.size;
  content_type = info.meta.content_type;
  updated_at = info.meta.updated_at;
  state = object_state_committed;
  shard_placements = info.meta.shard_placements;
  shard_checksums = info.meta.shard_checksums;
  shard_sizes = info.meta.shard_sizes;
}

unfoldable pub delete_blob : Text → Text → M (Unit {0})
delete_blob path hash = call_engine (λ e. Blobs.delete_blob e path hash)

-- What DecreaseBlobRef answers, and the blob that goes with the last reference.
abbrev pub delete_if_removed : Text → Text × Bool → M (Unit {0})
delete_if_removed hash (path, false) = pure tt
delete_if_removed hash (path, true) = delete_blob path hash

unfoldable pub release_blob : Text → M (Unit {0})
release_blob hash = do
  freed ← call_meta (λ s. RaftStore.decrease_blob_ref s hash)
  delete_if_removed hash freed
