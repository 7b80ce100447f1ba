-- ===== src/Store/Put/Dangling.antt =====
-- A rollback whose DecreaseBlobRef fails (rollbackPut of internal/store/blob.go).
use filpe.Prelude.{true, false, list_equality, number_equality}
use filpe.Prelude.Texts.{Text}
use filpe.Raft.Types.{MetadataBlobRef}
use filpe.Metadata.RaftStore
use filpe.Engine.Layouts
use filpe.Engine.Layouts.{Shards, etag_from_hash}
use filpe.Engine.Blobs
use filpe.Store.World.{World}
use filpe.Store.Put.{blob_of_ref}
use filpe.Store.Put.Steps.{PreparedBlob}

-- The blob of a reference, which a put takes as it is.
abbrev pub known_blob : Text → MetadataBlobRef → PreparedBlob
known_blob hash ref = record {
  blob =
      blob_of_ref hash (etag_from_hash hash)
        (RaftStore.from_raft_blob_ref (record ref { hash = hash }));
  ref_exists = true;
  created_blob = false;
}
