-- ===== src/Metadata/Agreement.antt =====
-- The two metadata stores of internal/metadata side by side.
pub mod Entries
pub mod Staging
pub mod Buckets
pub mod Deletes
pub mod Refs
pub mod Differences
pub mod Calls
pub mod Reads
use filpe.Prelude.{
  ℕ, ◌≡◌, refl, sym, ◌∙◌, ap, Bool, true, false, List, [], ◌∷◌, Option, none, some, ==_iff,
  list_equality, number_equality, ◌==◌, arith, ◌<◌, if◌then◌else◌, Option-cases, Bool-cases, inl,
  inr,
}
use filpe.Prelude.Results.{Result, ok, err}
use filpe.Prelude.Int.{ℤ, pos}
use filpe.Prelude.Texts.{Text, trim_space, is_empty}
use filpe.Prelude.Words.{two_63, int64_sub-pos}
use filpe.Prelude.Maps.{Map, Each, Unique, lookup, has, insert, erase, lookup-insert, lookup-erase}
use filpe.Model.{Bucket, ShardPlacement, ObjectMeta}
use filpe.Raft.Commands.{
  State, apply_metadata_command, invalid_name, invalid_object, object_map_key, check_object,
  apply_create_bucket, apply_upsert_object, apply_stage_object, apply_delete_staged,
  apply_delete_object, apply_create_blob_ref, apply_increase_blob_ref, apply_decrease_blob_ref,
  apply_update_placements, dispatch,
}
use filpe.Raft.Types.{MetadataBlobRef}
use filpe.Metadata.RaftStore
use filpe.Metadata.Objects
use filpe.Metadata.BlobRefs
use filpe.Metadata.Staged
use filpe.Metadata.{MetadataError, BlobRef, Memory, object_id}
use filpe.Metadata.RaftStore.{from_raft_blob_ref}

abbrev pub stored : Option MetadataBlobRef → Option BlobRef
stored none = none
stored (some ref) = some (from_raft_blob_ref ref)

-- The stores hold the same metadata.
pub record Agrees (s : State) (m : Memory) : Type 0 where
  pub buckets : (b : Text) → has b s.buckets ≡ has b m.buckets
  pub objects : (id : Text) → lookup id s.objects ≡ lookup id m.objects
  pub staged : (id : Text) → lookup id s.staged_objects ≡ lookup id m.staged
  pub blobs : (h : Text) → stored (lookup h s.blob_refs) ≡ lookup h m.blobs

-- The calls that change a store.
pub data Call : Type 0 where
  create_bucket : Text → ℕ → Call
  delete_bucket : Text → Call
  upsert stage : ObjectMeta → Call
  delete_object delete_staged : Text → Text → Call
  create_ref : BlobRef → Call
  place_ref : Text → List ShardPlacement → Call
  increase decrease : Text → Call

-- What is compared of an answer: an object that was there, the path of a blob whose last reference
-- is gone. The path that comes with a reference that stays is left out, since it is the blob's in
-- memory and empty in the replicated store; releaseBlob, which is who calls, does not read it.
pub data Answer : Type 0 where
  done : Answer
  object : ObjectMeta → Bool → Answer
  freed : Option Text → Answer

abbrev pub freed_path : Result MetadataError (Text × Bool) → Result MetadataError (Option Text)
freed_path (ok (path, true)) = ok (some path)
freed_path (ok (path, false)) = ok none
freed_path (err e) = err e

abbrev map_ok : {A : Type 0} → (A → Answer) → Result MetadataError A → Result MetadataError Answer
map_ok f (ok a) = ok (f a)
map_ok f (err e) = err e

abbrev answered :
    {S A : Type 0} → (A → Answer) → S × Result MetadataError A → S × Result MetadataError Answer
answered f (s, r) = (s, map_ok f r)

abbrev freed_as :
    {S : Type 0} → S × Result MetadataError (Text × Bool) → S × Result MetadataError Answer
freed_as (s, r) = (s, map_ok freed (freed_path r))

-- A call on the replicated store, and on the one in memory.
unfoldable pub raft_call : State → Call → State × Result MetadataError Answer
raft_call s (create_bucket b now) = answered (λ u. done) (RaftStore.create_bucket s b now)
raft_call s (delete_bucket b) = answered (λ u. done) (RaftStore.delete_bucket s b)
raft_call s (upsert meta) = answered (λ u. done) (RaftStore.upsert_object_meta s meta)
raft_call s (stage meta) = answered (λ u. done) (RaftStore.stage_object_meta s meta)
raft_call s (delete_object b k) =
    answered (λ a. object a.0 a.1) (RaftStore.delete_object_meta s b k)
raft_call s (delete_staged b k) =
    answered (λ a. object a.0 a.1) (RaftStore.delete_staged_object_meta s b k)
raft_call s (create_ref ref) = answered (λ u. done) (RaftStore.create_blob_ref s ref)
raft_call s (place_ref hash placements) =
    answered (λ u. done) (RaftStore.update_blob_ref_placements s hash placements)
raft_call s (increase hash) = answered (λ u. done) (RaftStore.increase_blob_ref s hash)
raft_call s (decrease hash) = freed_as (RaftStore.decrease_blob_ref s hash)

unfoldable pub memory_call : Memory → Call → Memory × Result MetadataError Answer
memory_call m (create_bucket b now) = answered (λ u. done) (Objects.create_bucket m b)
memory_call m (delete_bucket b) = answered (λ u. done) (Objects.delete_bucket m b)
memory_call m (upsert meta) = answered (λ u. done) (Objects.upsert_object_meta m meta)
memory_call m (stage meta) = answered (λ u. done) (Staged.stage_object_meta m meta)
memory_call m (delete_object b k) =
    answered (λ a. object a.0 a.1) (Objects.delete_object_meta m b k)
memory_call m (delete_staged b k) =
    answered (λ a. object a.0 a.1) (Staged.delete_staged_object_meta m b k)
memory_call m (create_ref ref) = answered (λ u. done) (BlobRefs.create_blob_ref m ref)
memory_call m (place_ref hash placements) =
    answered (λ u. done) (BlobRefs.update_blob_ref_placements m hash placements)
memory_call m (increase hash) = answered (λ u. done) (BlobRefs.increase_blob_ref m hash)
memory_call m (decrease hash) = freed_as (BlobRefs.decrease_blob_ref m hash)

-- Names without white space around them, and a hash that is not blank.
abbrev pub Named : ObjectMeta → Type 0
Named meta =
    (trim_space meta.bucket ≡ meta.bucket)
    × (trim_space meta.key ≡ meta.key)
    × (trim_space meta.hash ≡ meta.hash)
    × (is_empty meta.hash ≡ false)

abbrev pub SolidHash : Text → Type 0
SolidHash hash = is_empty (trim_space hash) ≡ false

-- No object of a bucket.
abbrev pub NoneIn : Text → Map Text ObjectMeta → Type 0
NoneIn b objects = Each (λ id meta. (meta.bucket == b) ≡ false) objects

-- The calls on which the stores agree: names that are trimmed, hashes that are not blank, a bucket to
-- delete that has no objects, a new reference for a hash without one, and a decrease of a reference
-- that is there. Of the maps that DeleteBucket ranges over each key stands once.
abbrev pub Suits : State → Memory → Call → Type 0
Suits s m (create_bucket b now) = trim_space b ≡ b
Suits s m (delete_bucket b) =
    (trim_space b ≡ b)
    × ((names : Map Text (Unit {0})) → lookup b m.buckets ≡ some names → names ≡ [])
    × NoneIn b s.objects
    × Unique s.objects
    × Unique s.staged_objects
    × Unique m.staged
Suits s m (upsert meta) = Named meta
Suits s m (stage meta) = Named meta
Suits s m (delete_object b k) = (trim_space b ≡ b) × (trim_space k ≡ k)
Suits s m (delete_staged b k) = (trim_space b ≡ b) × (trim_space k ≡ k)
Suits s m (create_ref ref) =
    SolidHash ref.hash × SolidHash ref.path × (lookup ref.hash m.blobs ≡ none)
Suits s m (place_ref hash placements) = SolidHash hash
Suits s m (increase hash) = SolidHash hash
Suits s m (decrease hash) =
    SolidHash hash
    × ((ref : BlobRef) × (n : ℕ) × (lookup hash m.blobs ≡ some ref)
        × (ref.ref_count ≡ pos n)
        × (n < two_63))

-- Calls in a row, each of which suits the stores that it meets.
abbrev pub AllSuit : State → Memory → List Call → Type 0
AllSuit s m [] = Unit {0}
AllSuit s m (c ∷ cs) = Suits s m c × AllSuit (raft_call s c).0 (memory_call m c).0 cs

unfoldable pub raft_calls : State → List Call → State × List (Result MetadataError Answer)
raft_calls s [] = (s, [])
raft_calls s (c ∷ cs) =
    let step = raft_call s c in let rest = raft_calls step.0 cs in (rest.0, step.1 ∷ rest.1)

unfoldable pub memory_calls : Memory → List Call → Memory × List (Result MetadataError Answer)
memory_calls m [] = (m, [])
memory_calls m (c ∷ cs) =
    let step = memory_call m c in let rest = memory_calls step.0 cs in (rest.0, step.1 ∷ rest.1)
