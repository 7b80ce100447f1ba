-- ===== src/Metadata/BlobRefs.antt =====
-- internal/metadata/blob_ref.go: the references to blobs, in memory. A clone of a slice is the
-- same list.
use filpe.Prelude.{
  Bool, true, false, not, List, [], ◌∷◌, Option, none, some, if◌then◌else◌, list_equality,
  number_equality,
}
use filpe.Prelude.Results.{Result, ok, err}
use filpe.Prelude.Int.{pos, ltb_ℤ}
use filpe.Prelude.Texts.{Text}
use filpe.Prelude.Words.{int64_add, int64_sub}
use filpe.Prelude.Maps.{Map, lookup, insert, erase, has}
use filpe.Model.{ShardPlacement}
use filpe.Metadata.{MetadataError, object_not_found, BlobRef, Memory}

-- decreaseBlobRefLocked: the path, and whether the reference is gone.
unfoldable pub decrease_blob_ref : Memory → Text → Memory × Result MetadataError (Text × Bool)
decrease_blob_ref m hash = elim (lookup hash m.blobs) [
  | none ↦ (m, err object_not_found)
  | some ref ↦
      (let count = int64_sub ref.ref_count (pos 1) in
        if not (ltb_ℤ (pos 0) count)
        then (record m { blobs = erase hash m.blobs }, ok (ref.path, true))
        else (
          record m { blobs = insert hash (record ref { ref_count = count }) m.blobs },
          ok (ref.path, false),
        ))
]

-- CreateBlobRef with its shard sizes; a reference that exists stays as it is.
unfoldable pub create_blob_ref : Memory → BlobRef → Memory × Result MetadataError (Unit {0})
create_blob_ref m given = if has given.hash m.blobs then (m, ok tt) else (
  record m { blobs = insert given.hash (record given { ref_count = pos 1 }) m.blobs },
  ok tt,
)

unfoldable pub update_blob_ref_placements :
    Memory → Text → List ShardPlacement → Memory × Result MetadataError (Unit {0})
update_blob_ref_placements m hash placements = elim (lookup hash m.blobs) [
  | none ↦ (m, err object_not_found)
  | some ref ↦ (
    record m { blobs = insert hash (record ref { shard_placements = placements }) m.blobs },
    ok tt,
  )
]

unfoldable pub increase_blob_ref : Memory → Text → Memory × Result MetadataError (Unit {0})
increase_blob_ref m hash = elim (lookup hash m.blobs) [
  | none ↦ (m, err object_not_found)
  | some ref ↦ (
    record m {
      blobs = insert hash (record ref { ref_count = int64_add ref.ref_count (pos 1) }) m.blobs;
    },
    ok tt,
  )
]

abbrev ref_or_zero : Option BlobRef → BlobRef
ref_or_zero none = record {
  hash = [];
  path = [];
  shard_placements = [];
  shard_checksums = [];
  shard_sizes = [];
  ref_count = pos 0;
  size = pos 0;
}
ref_or_zero (some ref) = ref

unfoldable pub get_blob_ref : Memory → Text → BlobRef × Bool
get_blob_ref m hash = (record (ref_or_zero (lookup hash m.blobs)) { hash = hash }, has hash m.blobs)

-- Each entry under the hash that is its key.
unfoldable pub list_blob_refs : Map Text BlobRef → List BlobRef
list_blob_refs [] = []
list_blob_refs ((hash, ref) ∷ more) = record ref { hash = hash } ∷ list_blob_refs more
