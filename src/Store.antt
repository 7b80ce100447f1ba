-- ===== src/Store.antt =====
-- internal/store: the object store over the metadata and the engine.
pub mod Dedupe
pub mod World
pub mod Put
pub mod Objects
pub mod Recovery
use filpe.Metadata
use filpe.Metadata.{MetadataError}

-- The errors of store.go.
pub data StoreError : Type 0 where
  bad_request bucket_exists bucket_not_found not_found engine_failed : StoreError
  -- engine.ErrObjectNotFound, and every other error
  layout_not_found other : StoreError

-- mapStoreError
unfoldable pub map_store_error : MetadataError → StoreError
map_store_error Metadata.bad_request = bad_request
map_store_error Metadata.bucket_exists = bucket_exists
map_store_error Metadata.bucket_not_found = bucket_not_found
map_store_error Metadata.object_not_found = not_found
