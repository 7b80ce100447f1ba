-- ===== src/Store/Dedupe.antt =====
-- internal/store/dedupe_types.go, dedupe_collect.go and dedupe_refs.go: the reference counts of
-- blobs brought in line with the objects. The metadata store is the replicated one. Whether the
-- engine deletes a blob is the parameter `deletes`; Go's maps are ranged over in list order, and
-- the endless loop of removeOrphanBlobRef runs on fuel, `none` when that is spent.
pub mod Fixes
pub mod Stats
pub mod Counting
pub mod Orphans
pub mod Converge
pub mod Passes
pub mod Limit
mod Examples
use filpe.Prelude.{
  ℕ, zero, suc, ◌+◌, ◌-◌, Bool, true, false, not, ◌&&◌, ◌||◌, List, [], ◌∷◌, ◌++◌, Option, none,
  some, if◌then◌else◌, leb, ◌==◌, list_equality, number_equality, length,
}
use filpe.Prelude.Results.{Result, ok, err}
use filpe.Prelude.Int.{ℤ, pos, negsuc, ltb_ℤ, ◌-ℤ◌, pos_part}
use filpe.Prelude.Words.{int64_add, int64_sub}
use filpe.Prelude.Texts.{Text, trim_space, is_empty}
use filpe.Prelude.Maps.{Map, lookup, insert, has}
use filpe.Model.{ObjectMeta, ShardPlacement, zero_object}
use filpe.Raft.Commands.{State}
use filpe.Metadata.{MetadataError, BlobRef}
use filpe.Metadata.RaftStore
use filpe.Store.{StoreError, map_store_error, engine_failed}

pub record DedupeOptions : Type 0 where
  pub dry_run : Bool
  pub max_fixes : ℤ

pub data IssueKind : Type 0 where
  ref_count_drift orphan_blob_ref missing_blob_ref layout_mismatch layout_read_failed : IssueKind

pub record DedupeIssue : Type 0 where
  pub kind : IssueKind
  pub hash : Text
  pub bucket : Text
  pub key : Text
  pub reason : Text
  pub expected_ref_count : ℤ
  pub actual_ref_count : ℤ
  pub path : Text
  pub canonical_path : Text
  pub size : ℤ

pub record DedupeResult : Type 0 where
  pub generated_at : ℕ
  pub dry_run : Bool
  pub buckets : ℤ
  pub objects : ℤ
  pub blob_refs : ℤ
  pub hashes : ℤ
  pub fixes : ℤ
  pub ref_count_drift_ : ℤ
  pub ref_count_increased : ℤ
  pub ref_count_decreased : ℤ
  pub missing_blob_refs : ℤ
  pub missing_blob_refs_fixed : ℤ
  pub orphan_blob_refs : ℤ
  pub orphan_blob_refs_removed : ℤ
  pub layouts_mismatched : ℤ
  pub layouts_canonicalized : ℤ
  pub bytes_reclaimable : ℤ
  pub bytes_reclaimed : ℤ
  pub limited : Bool
  pub issues : List DedupeIssue

-- newDedupeResult at a time
unfoldable pub new_dedupe_result : DedupeOptions → ℕ → DedupeResult
new_dedupe_result opts now = record {
  generated_at = now;
  dry_run = opts.dry_run;
  buckets = pos 0;
  objects = pos 0;
  blob_refs = pos 0;
  hashes = pos 0;
  fixes = pos 0;
  ref_count_drift_ = pos 0;
  ref_count_increased = pos 0;
  ref_count_decreased = pos 0;
  missing_blob_refs = pos 0;
  missing_blob_refs_fixed = pos 0;
  orphan_blob_refs = pos 0;
  orphan_blob_refs_removed = pos 0;
  layouts_mismatched = pos 0;
  layouts_canonicalized = pos 0;
  bytes_reclaimable = pos 0;
  bytes_reclaimed = pos 0;
  limited = false;
  issues = [];
}

-- What StatObject says of the layout of an object.
pub record LayoutInfo : Type 0 where
  pub shard_dir : Text
  pub size : ℤ
  pub shard_placements : List ShardPlacement
  pub shard_checksums : List Text
  pub shard_sizes : List ℤ

-- An object, with its layout where that could be read.
pub record DedupeObject : Type 0 where
  pub meta : ObjectMeta
  pub info : Option LayoutInfo

pub record DedupeHashStat : Type 0 where
  pub count : ℤ
  pub size : ℤ
  pub first : DedupeObject

abbrev pub no_object : DedupeObject
no_object = record { meta = zero_object; info = none }

abbrev pub stat_or_zero : Option DedupeHashStat → DedupeHashStat
stat_or_zero none = record { count = pos 0; size = pos 0; first = no_object }
stat_or_zero (some stat) = stat

abbrev pub Stats : Type 0
Stats = Map Text DedupeHashStat

abbrev pub plus_one : ℤ → ℤ
plus_one n = int64_add n (pos 1)

-- recordDedupeHashStat
unfoldable pub record_hash_stat : DedupeObject → Stats → Stats
record_hash_stat object stats =
    let hash = trim_space object.meta.hash in
    let stat = stat_or_zero (lookup hash stats) in
    if is_empty hash
    then stats
    else insert hash
        (record {
          count = plus_one stat.count;
          size = object.meta.size;
          first = if is_empty stat.first.meta.bucket then object else stat.first;
        })
        stats

-- The objects in the order in which they are collected.
unfoldable pub record_hash_stats : List DedupeObject → Stats → Stats
record_hash_stats [] stats = stats
record_hash_stats (object ∷ objects) stats =
    record_hash_stats objects (record_hash_stat object stats)

abbrev pub max_dedupe_issues : ℕ
max_dedupe_issues = 50

unfoldable pub add_issue : DedupeResult → DedupeIssue → DedupeResult
add_issue result issue =
    if leb max_dedupe_issues (length result.issues)
    then result
    else record result { issues = result.issues ++ issue ∷ [] }

-- reachedLimit: whether it is, and the result with its mark.
unfoldable pub limit_reached : DedupeResult → DedupeOptions → Bool
limit_reached result opts = ltb_ℤ (pos 0) opts.max_fixes && not (ltb_ℤ result.fixes opts.max_fixes)

abbrev pub limited_now : DedupeResult → DedupeResult
limited_now result = record result { limited = true }

-- The metadata, the result, and the error that ended the run.
abbrev pub Pass : Type 0
Pass = State × DedupeResult × Option StoreError

abbrev pub count_increase : DedupeResult → DedupeResult
count_increase result = record result {
  ref_count_increased = plus_one result.ref_count_increased;
  fixes = plus_one result.fixes;
}

abbrev pub count_decrease : DedupeResult → DedupeResult
count_decrease result = record result {
  ref_count_decreased = plus_one result.ref_count_decreased;
  fixes = plus_one result.fixes;
}

-- increaseBlobRef: `delta` rounds.
unfoldable pub increase_blob_ref : State → DedupeOptions → Text → ℕ → DedupeResult → Pass
unfolding limit_reached
increase_blob_ref s opts hash zero result = (s, result, none)
increase_blob_ref s opts hash (suc delta) result = elim (limit_reached result opts) [
  | true ↦ (s, limited_now result, none)
  | false ↦
      (let step = RaftStore.increase_blob_ref s hash in
        elim step.1 [
          | err e ↦ (step.0, result, some (map_store_error e))
          | ok done ↦ increase_blob_ref step.0 opts hash delta (count_increase result)
        ])
]

-- decreaseBlobRefToExpected: one round for each reference above the expected ones.
unfoldable pub decrease_rounds : State → DedupeOptions → Text → ℕ → DedupeResult → Pass
unfolding limit_reached
decrease_rounds s opts hash zero result = (s, result, none)
decrease_rounds s opts hash (suc rounds) result = elim (limit_reached result opts) [
  | true ↦ (s, limited_now result, none)
  | false ↦
      (let step = RaftStore.decrease_blob_ref s hash in
        elim step.1 [
          | err e ↦ (step.0, result, some (map_store_error e))
          | ok done ↦ decrease_rounds step.0 opts hash rounds (count_decrease result)
        ])
]

unfoldable pub rounds_between : ℤ → ℤ → ℕ
unfolding ◌-ℤ◌
rounds_between high low = pos_part (high -ℤ low)

unfoldable pub decrease_to_expected : State → DedupeOptions → BlobRef → ℤ → DedupeResult → Pass
unfolding decrease_rounds rounds_between
decrease_to_expected s opts ref expected result =
    decrease_rounds s opts ref.hash (rounds_between ref.ref_count expected) result

-- deleteRemovedOrphanBlob
unfoldable pub delete_removed_blob :
    (Text → Text → Bool) → State → Text → BlobRef → DedupeResult → Pass
delete_removed_blob deletes s path ref result =
    if deletes path ref.hash
    then (
      s,
      record result {
        orphan_blob_refs_removed = plus_one result.orphan_blob_refs_removed;
        bytes_reclaimed = int64_add result.bytes_reclaimed ref.size;
      },
      none,
    )
    else (s, result, some engine_failed)

unfoldable pub remove_orphan :
    (Text → Text → Bool) → ℕ → State → DedupeOptions → BlobRef → DedupeResult → Option Pass
unfolding limit_reached delete_removed_blob
remove_orphan deletes zero s opts ref result = none
remove_orphan deletes (suc fuel) s opts ref result = elim (limit_reached result opts) [
  | true ↦ some (s, limited_now result, none)
  | false ↦
      (let step = RaftStore.decrease_blob_ref s ref.hash in
        elim step.1 [
          | err e ↦ some (step.0, result, some (map_store_error e))
          | ok (path, removed) ↦ elim removed [
            | true ↦ some (delete_removed_blob deletes step.0 path ref (count_decrease result))
            | false ↦ remove_orphan deletes fuel step.0 opts ref (count_decrease result)
          ]
        ])
]
