-- ===== src/Engine/Blobs.antt =====
-- internal/engine/blob.go, health.go, scrub.go, repair.go and the objects of engine.go and
-- object_lookup.go: shards written, read, checked and rebuilt. The nodes of a plan are registered,
-- and a node gives back what was written to it; what fails in between is up to the callers'
-- schedule of faults. A shard with no bytes is a missing one, as the coder takes it.
pub mod RoundTrip
pub mod PutGet
pub mod Blank
pub mod Sample
mod Examples
use filpe.Prelude.{
  ℕ, zero, suc, ◌+◌, Bool, true, false, not, ◌&&◌, ◌||◌, Option, none, some, List, [], ◌∷◌, ◌++◌,
  map, if◌then◌else◌, nat_beq, leb, ltb, ◌==◌, list_equality, number_equality, length, get_elem?,
}
use filpe.Prelude.Results.{Result, ok, err}
use filpe.Prelude.Int.{ℤ, pos, ltb_ℤ}
use filpe.Prelude.Texts.{Text, trim_space, is_empty}
use filpe.Model.{ShardPlacement}
use filpe.Engine.Coder
use filpe.Engine.Coder.{Bytes}
use filpe.Engine.Placement.{plan_shard_placement}
use filpe.Engine.Layouts.{
  BlobInfo, Layout, ObjectInfo, EngineConfig, Shards, Remote, path_of, Engine, EngineError,
  names_required, key_required, blob_required, encode_failed, placement_failed, object_not_found,
  shard_recovery_failed, decode_failed, object_corrupted, etag_from_hash, make_shard_dir,
  link_object, get_layout, delete_object_layout, object_info_from_layout,
}

-- A slice read at an index, with the entry that stands for out of range.
abbrev pub get_or {ℓ} : {A : Type ℓ} → List A → ℕ → A → A
get_or [] i a = a
get_or (x ∷ xs) zero a = x
get_or (x ∷ xs) (suc i) a = get_or xs i a

-- WriteShard of each shard of a set, under whatever spelling of its directory.
unfoldable pub write_shards : Text → Text → List Bytes → Shards → Shards
unfolding path_of
write_shards dir hash made shards = λ d h i.
    if path_of d == path_of dir && h == hash then get_or made i (shards d h i) else shards d h i

abbrev pub is_remote : List ShardPlacement → ℕ → Bool
is_remote [] i = false
is_remote (placement ∷ placements) zero = not placement.local
is_remote (placement ∷ placements) (suc i) = is_remote placements i

-- Where the placements of a set have put its shards.
unfoldable pub place_shards : Text → Text → List ShardPlacement → Remote → Remote
unfolding path_of
place_shards dir hash placements remote =
    λ d h i. if path_of d == path_of dir && h == hash then is_remote placements i else remote d h i

-- DeleteShardSet of the local node: the shards of the set on other nodes stay.
unfoldable pub delete_shard_set : Remote → Text → Text → Shards → Shards
unfolding path_of
delete_shard_set remote dir hash shards = λ d h i.
    if path_of d == path_of dir && h == hash && not (remote d h i) then [] else shards d h i

-- DeleteBlob
unfoldable pub delete_blob : Engine → Text → Text → Engine × Result EngineError (Unit {0})
unfolding delete_shard_set
delete_blob e given_dir given_hash =
    let dir = trim_space given_dir in
    let hash = trim_space given_hash in
    if is_empty dir || is_empty hash
    then (e, err blob_required)
    else (record e { shards = delete_shard_set e.remote dir hash e.shards }, ok tt)

-- What reading a shard gives.
pub data ShardRead : Type 0 where
  present : Bytes → ShardRead
  missing corrupted : ShardRead

abbrev pub readable : ShardRead → Bytes
readable (present bytes) = bytes
readable missing = []
readable corrupted = []

pub record Health : Type 0 where
  pub bucket : Text
  pub key : Text
  pub total_chunks : ℕ
  pub available : ℕ
  pub missing_ : ℕ
  pub corrupted_ : ℕ
  pub recoverable : Bool

abbrev pub count_present : List ShardRead → ℕ
count_present [] = 0
count_present (present bytes ∷ reads) = suc (count_present reads)
count_present (missing ∷ reads) = count_present reads
count_present (corrupted ∷ reads) = count_present reads

abbrev pub count_missing : List ShardRead → ℕ
count_missing [] = 0
count_missing (present bytes ∷ reads) = count_missing reads
count_missing (missing ∷ reads) = suc (count_missing reads)
count_missing (corrupted ∷ reads) = count_missing reads

abbrev pub count_corrupted : List ShardRead → ℕ
count_corrupted [] = 0
count_corrupted (present bytes ∷ reads) = count_corrupted reads
count_corrupted (missing ∷ reads) = count_corrupted reads
count_corrupted (corrupted ∷ reads) = suc (count_corrupted reads)

-- The shards that were read, in place.
abbrev pub read_bytes : List ShardRead → List Bytes
read_bytes [] = []
read_bytes (read ∷ reads) = readable read ∷ read_bytes reads

module _ (c : EngineConfig) where
  abbrev pub total_chunks_of : ℕ
  total_chunks_of = c.data_chunks + c.parity_chunks

  -- PutBlobBytes
  unfoldable pub put_blob_bytes : Engine → Text → Bytes → Engine × Result EngineError BlobInfo
  unfolding make_shard_dir write_shards place_shards etag_from_hash
  put_blob_bytes e key bytes =
      let hash = c.hash_bytes bytes in
      let dir = make_shard_dir (trim_space key) in
      if is_empty (trim_space key)
      then (e, err key_required)
      else elim (Coder.encode c.data_chunks c.parity_chunks c.scheme bytes) [
        | err e' ↦ (e, err encode_failed)
        | ok made ↦ elim (plan_shard_placement e.nodes.planner (pos (length made))) [
          | err e' ↦ (e, err placement_failed)
          | ok placements ↦ (
            record e {
              shards = write_shards dir hash made e.shards;
              remote = place_shards dir hash placements e.remote;
            },
            ok (record {
              hash = hash;
              etag = etag_from_hash hash;
              size = pos (length bytes);
              shard_dir = dir;
              shard_placements = placements;
              shard_checksums = map c.hash_bytes made;
              shard_sizes = map (λ shard. pos (length shard)) made;
            }),
          )
        ]
      ]

  -- PutObject of the engine
  unfoldable pub put_object :
      Engine → Text → Text → Bytes → Text → ℕ → Engine × Result EngineError ObjectInfo
  unfolding put_blob_bytes link_object
  put_object e bucket key bytes content_type now =
      if is_empty (trim_space bucket) || is_empty (trim_space key)
      then (e, err names_required)
      else let written = put_blob_bytes e (trim_space key) bytes in
        elim written.1 [
          | err e' ↦ (written.0, err e')
          | ok blob ↦
              link_object c written.0 (trim_space bucket) (trim_space key) blob content_type now now
        ]

  -- verifyShardChecksum of a shard that is there
  unfoldable pub check_shard : Layout → ℕ → Bytes → ShardRead
  check_shard layout index bytes =
      let expected = trim_space (get_or layout.shard_checksums index []) in
      if is_empty expected
      then present bytes
      else if c.hash_bytes bytes == expected
      then present bytes
      else corrupted

  -- readShardForRecovery of a shard whose node is registered and answers: the error of a node that is
  -- not, which ends the read of an object, is left out.
  unfoldable pub read_shard : Engine → Layout → ℕ → ShardRead
  unfolding check_shard
  read_shard e layout index =
      let bytes = e.shards layout.shard_dir layout.hash index in
      if is_empty bytes then missing else check_shard layout index bytes

  unfoldable pub read_shards_from : Engine → Layout → ℕ → ℕ → List ShardRead
  unfolding read_shard
  read_shards_from e layout index zero = []
  read_shards_from e layout index (suc rounds) =
      read_shard e layout index ∷ read_shards_from e layout (suc index) rounds

  unfoldable pub read_shards : Engine → Layout → List ShardRead
  unfolding read_shards_from
  read_shards e layout = read_shards_from e layout 0 total_chunks_of

  unfoldable pub health_from_layout : Engine → Layout → Health
  unfolding read_shards
  health_from_layout e layout =
      let reads = read_shards e layout in
      record {
        bucket = layout.bucket;
        key = layout.key;
        total_chunks = total_chunks_of;
        available = count_present reads;
        missing_ = count_missing reads;
        corrupted_ = count_corrupted reads;
        recoverable = leb c.data_chunks (count_present reads);
      }

  -- verifyObjectChecksum
  unfoldable pub verify_object_checksum : Layout → Bytes → Bool
  verify_object_checksum layout bytes =
      let expected = trim_space layout.hash in is_empty expected || c.hash_bytes bytes == expected

  -- readAvailableShards, ensureReadableShards, Decode and the checksum. Too few shards are too few
  -- for canRebuild as well, which counts them again.
  unfoldable pub read_object : Engine → Layout → Result EngineError Bytes
  unfolding read_shards verify_object_checksum
  read_object e layout =
      let reads = read_shards e layout in
      if leb c.data_chunks (count_present reads)
      then elim (Coder.decode c.data_chunks c.parity_chunks c.scheme (read_bytes reads)
          layout.size) [
            | err e' ↦ err decode_failed
            | ok bytes ↦
                if verify_object_checksum layout bytes then ok bytes else err object_corrupted
          ]
      else err shard_recovery_failed

  unfoldable pub get_object :
      Engine → Text → Text → ℕ → Engine × Result EngineError (Bytes × ObjectInfo)
  unfolding read_object get_layout object_info_from_layout
  get_object e bucket key now =
      let found = get_layout c e bucket key in
      elim found.1 [
        | none ↦ (found.0, err object_not_found)
        | some layout ↦ (
          found.0,
          elim (read_object found.0 layout) [
            | err e' ↦ err e'
            | ok bytes ↦ ok (bytes, object_info_from_layout layout now)
          ],
        )
      ]

  -- CheckHealth
  unfoldable pub check_health : Engine → Text → Text → Engine × Result EngineError Health
  unfolding health_from_layout get_layout
  check_health e bucket key =
      let found = get_layout c e bucket key in
      elim found.1 [
        | none ↦ (found.0, err object_not_found)
        | some layout ↦ (found.0, ok (health_from_layout found.0 layout))
      ]
