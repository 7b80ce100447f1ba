-- ===== src/Metadata/Examples.antt =====
-- The two metadata stores side by side on a short run of calls.
use filpe.Prelude.{
  ◌≡◌, refl, false, List, [], ◌∷◌, none, some, list_equality, number_equality, arith,
}
use filpe.Prelude.Results.{ok, err}
use filpe.Prelude.Int.{pos}
use filpe.Prelude.Texts.{codes, trim_space, is_empty}
use filpe.Prelude.Words.{int64_add}
use filpe.Prelude.Maps.{lookup}
use filpe.Model.{ObjectMeta, zero_object, object_state_committed}
use filpe.Raft.Commands.{State}
use filpe.Raft.Types.{new_raft_state_machine}
use filpe.Metadata
use filpe.Metadata.{BlobRef, Memory}
use filpe.Metadata.RaftStore
use filpe.Metadata.Objects
use filpe.Metadata.BlobRefs
use filpe.Metadata.Agreement.{
  Agrees, stored, freed_path, Call, create_bucket, delete_bucket, upsert, create_ref, increase,
  decrease,
}
use filpe.Metadata.Agreement.Reads.{reads-Agrees}
use filpe.Metadata.Agreement.Differences.{stores_differ}

abbrev fresh : State
fresh = new_raft_state_machine 1 1

abbrev photo : ObjectMeta
photo = record zero_object { bucket = codes "album"; key = codes "photo"; hash = codes "h1" }

abbrev committed_photo : ObjectMeta
committed_photo = record photo { state = object_state_committed }

abbrev photo_ref : BlobRef
photo_ref = record {
  hash = codes "h1";
  path = codes "shards/h1";
  shard_placements = [];
  shard_checksums = [];
  shard_sizes = [];
  ref_count = pos 0;
  size = pos 3;
}

abbrev some_calls : List Call
some_calls =
    create_bucket (codes "album") 7
    ∷ upsert photo
    ∷ create_bucket (codes "empty") 8
    ∷ delete_bucket (codes "empty")
    ∷ create_ref photo_ref
    ∷ increase (codes "h1")
    ∷ decrease (codes "h1")
    ∷ decrease (codes "h1")
    ∷ []

abbrev one_ref : Memory
one_ref = record { buckets = []; objects = []; staged = []; blobs = (codes "h1", photo_ref) ∷ [] }

abbrev one_raft_ref : State
one_raft_ref = record fresh {
  blob_refs =
      (
        codes "h1",
        record {
          hash = codes "h1";
          path = codes "shards/h1";
          shard_placements = [];
          shard_checksums = [];
          shard_sizes = [];
          ref_count = pos 0;
          size = pos 3;
        },
      )
      ∷ [];
}

one_ref-Agrees : Agrees one_raft_ref one_ref
unfolding new_raft_state_machine lookup RaftStore.from_raft_blob_ref
one_ref-Agrees = record {
  buckets = λ b. refl;
  objects = λ id. refl;
  staged = λ id. refl;
  blobs = λ h. ground arith;
}

abbrev ref_counted : BlobRef
ref_counted = record photo_ref { ref_count = int64_add (pos 0) (pos 1) }

h1_there : lookup (codes "h1") one_ref.blobs ≡ some photo_ref
unfolding lookup
h1_there = refl

h2_missing : lookup (codes "h2") one_ref.blobs ≡ none
unfolding lookup
h2_missing = refl

no_blanks :
    (is_empty (trim_space (codes "h1")) ≡ false)
    × (is_empty (trim_space (codes "shards/h1")) ≡ false)
    × (is_empty (trim_space (codes "h2")) ≡ false)
unfolding trim_space
no_blanks = (refl, refl, refl)

stores_differ_example :
    (stored (lookup (codes "h1") (RaftStore.create_blob_ref one_raft_ref photo_ref).0.blob_refs)
      ≡ some ref_counted)
    × (BlobRefs.create_blob_ref one_ref photo_ref ≡ (one_ref, ok tt))
    × (freed_path (RaftStore.decrease_blob_ref one_raft_ref (codes "h2")).1 ≡ ok none)
    × (freed_path (BlobRefs.decrease_blob_ref one_ref (codes "h2")).1
        ≡ err Metadata.object_not_found)
stores_differ_example =
    stores_differ one_raft_ref one_ref photo_ref photo_ref (codes "h2") one_ref-Agrees no_blanks.0
      no_blanks.1 h1_there no_blanks.2 h2_missing

album_plain : trim_space (codes "album") ≡ codes "album"
unfolding trim_space
album_plain = refl

reads-Agrees_example :
    (RaftStore.bucket_exists_in one_raft_ref (codes "album")
      ≡ Objects.bucket_exists_in one_ref (codes "album"))
    × (RaftStore.get_object_meta one_raft_ref (codes "album") (codes "album")
        ≡ Objects.get_object_meta one_ref (codes "album") (codes "album"))
    × (RaftStore.get_blob_ref one_raft_ref (codes "h1")
        ≡ ok (BlobRefs.get_blob_ref one_ref (codes "h1")))
reads-Agrees_example =
    reads-Agrees one_raft_ref one_ref (codes "album") (codes "album") (codes "h1") one_ref-Agrees
      album_plain album_plain no_blanks.0
