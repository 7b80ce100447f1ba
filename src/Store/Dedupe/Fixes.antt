-- ===== src/Store/Dedupe/Fixes.antt =====
-- internal/store/dedupe_refs.go: the passes over the hashes and over the listed references.
use filpe.Prelude.{
  ℕ, Bool, false, ◌||◌, List, [], ◌∷◌, Option, none, some, if◌then◌else◌, ◌==◌, list_equality,
  number_equality,
}
use filpe.Prelude.Results.{ok, err}
use filpe.Prelude.Int.{ℤ, pos, negsuc, ltb_ℤ}
use filpe.Prelude.Words.{int64_add}
use filpe.Prelude.Texts.{Text}
use filpe.Prelude.Maps.{Map, lookup, insert, has}
use filpe.Raft.Commands.{State}
use filpe.Metadata.{BlobRef}
use filpe.Metadata.RaftStore
use filpe.Store.{map_store_error}
use filpe.Store.Dedupe.{
  DedupeOptions, DedupeResult, ref_count_drift, orphan_blob_ref, missing_blob_ref, LayoutInfo,
  DedupeHashStat, Stats, stat_or_zero, add_issue, limit_reached, limited_now, plus_one, Pass,
  increase_blob_ref, rounds_between, decrease_to_expected, remove_orphan,
}

-- The equality test of counts, `==` on `int`.
unfoldable pub same_count : ℤ → ℤ → Bool
same_count (pos a) (pos b) = a == b
same_count (negsuc a) (negsuc b) = a == b
same_count (pos a) (negsuc b) = false
same_count (negsuc a) (pos b) = false

abbrev pub is_zero : ℤ → Bool
is_zero n = same_count n (pos 0)

-- recordRefCountDrift
unfoldable pub record_drift : BlobRef → ℤ → DedupeResult → DedupeResult
unfolding add_issue same_count
record_drift ref expected result =
    add_issue (record result { ref_count_drift_ = plus_one result.ref_count_drift_ })
      (record {
        kind = if is_zero expected then orphan_blob_ref else ref_count_drift;
        hash = ref.hash;
        bucket = [];
        key = [];
        reason = [];
        expected_ref_count = expected;
        actual_ref_count = ref.ref_count;
        path = ref.path;
        canonical_path = [];
        size = ref.size;
      })

abbrev pub count_orphan : BlobRef → DedupeResult → DedupeResult
count_orphan ref result = record result {
  orphan_blob_refs = plus_one result.orphan_blob_refs;
  bytes_reclaimable = int64_add result.bytes_reclaimable ref.size;
}

-- recordDryRunOrphan
unfoldable pub record_dry_run_orphan : BlobRef → ℤ → DedupeResult → DedupeResult
unfolding same_count
record_dry_run_orphan ref expected result =
    if is_zero expected then count_orphan ref result else result

unfoldable pub fix_blob_ref_count :
    (Text → Text → Bool) → ℕ → State → DedupeOptions → BlobRef → ℤ → DedupeResult → Option Pass
unfolding same_count rounds_between decrease_to_expected remove_orphan
fix_blob_ref_count deletes fuel s opts ref expected result =
    if is_zero expected
    then remove_orphan deletes fuel s opts ref (count_orphan ref result)
    else if ltb_ℤ ref.ref_count expected
    then some (increase_blob_ref s opts ref.hash (rounds_between expected ref.ref_count) result)
    else some (decrease_to_expected s opts ref expected result)

-- One reference of fixExistingBlobRefs.
unfoldable pub fix_existing_blob_ref :
    (Text → Text → Bool) → ℕ → State → DedupeOptions → Stats → BlobRef → DedupeResult → Option Pass
unfolding same_count record_drift record_dry_run_orphan fix_blob_ref_count
fix_existing_blob_ref deletes fuel s opts stats ref result =
    let expected = (stat_or_zero (lookup ref.hash stats)).count in
    let drifted = record_drift ref expected result in
    if same_count expected ref.ref_count
    then some (s, result, none)
    else if opts.dry_run
    then some (s, record_dry_run_orphan ref expected drifted, none)
    else fix_blob_ref_count deletes fuel s opts ref expected drifted

unfoldable pub fix_existing_blob_refs :
    (Text → Text → Bool)
    → ℕ
    → State
    → DedupeOptions
    → Stats
    → List BlobRef
    → DedupeResult
    → Option Pass
unfolding fix_existing_blob_ref
fix_existing_blob_refs deletes fuel s opts stats [] result = some (s, result, none)
fix_existing_blob_refs deletes fuel s opts stats (ref ∷ refs) result =
    elim (fix_existing_blob_ref deletes fuel s opts stats ref result) [
      | none ↦ none
      | some pass ↦ elim pass.2 [
        | some e ↦ some pass
        | none ↦ fix_existing_blob_refs deletes fuel pass.0 opts stats refs pass.1
      ]
    ]

-- planMissingBlobRefs, over the entries of the map of stats.
unfoldable pub plan_missing_blob_refs : Stats → Map Text BlobRef → DedupeResult → DedupeResult
unfolding add_issue
plan_missing_blob_refs [] refs result = result
plan_missing_blob_refs ((hash, stat) ∷ stats) refs result =
    let planned =
      add_issue (record result { missing_blob_refs = plus_one result.missing_blob_refs })
        (record {
          kind = missing_blob_ref;
          hash = hash;
          bucket = stat.first.meta.bucket;
          key = stat.first.meta.key;
          reason = [];
          expected_ref_count = stat.count;
          actual_ref_count = pos 0;
          path = [];
          canonical_path = [];
          size = stat.size;
        }) in
    plan_missing_blob_refs stats refs (if has hash refs then result else planned)

abbrev pub ref_of : Text → LayoutInfo → BlobRef
ref_of hash info = record {
  hash = hash;
  path = info.shard_dir;
  shard_placements = info.shard_placements;
  shard_checksums = info.shard_checksums;
  shard_sizes = info.shard_sizes;
  ref_count = pos 1;
  size = info.size;
}

-- fixMissingBlobRef, which also adds the new reference to the map of references.
unfoldable pub fix_missing_blob_ref :
    State
    → DedupeOptions
    → Text
    → DedupeHashStat
    → Map Text BlobRef
    → DedupeResult
    → Pass × Map Text BlobRef
unfolding limit_reached increase_blob_ref rounds_between
fix_missing_blob_ref s opts hash stat refs result = elim stat.first.info [
  | none ↦ ((s, result, none), refs)
  | some info ↦
      if has hash refs || opts.dry_run
      then ((s, result, none), refs)
      else if limit_reached result opts
      then ((s, limited_now result, none), refs)
      else (let step = RaftStore.create_blob_ref s (ref_of hash info) in
          elim step.1 [
            | err e ↦ ((step.0, result, some (map_store_error e)), refs)
            | ok done ↦
                (let fixed = record result {
                  missing_blob_refs_fixed = plus_one result.missing_blob_refs_fixed;
                  fixes = plus_one result.fixes;
                } in
                  (
                    increase_blob_ref step.0 opts hash (rounds_between stat.count (pos 1)) fixed,
                    insert hash (ref_of hash info) refs,
                  ))
          ])
]

-- fixMissingBlobRefs, over the entries of the map of stats.
unfoldable pub fix_missing_blob_refs :
    State → DedupeOptions → Stats → Map Text BlobRef → DedupeResult → Pass × Map Text BlobRef
unfolding fix_missing_blob_ref
fix_missing_blob_refs s opts [] refs result = ((s, result, none), refs)
fix_missing_blob_refs s opts ((hash, stat) ∷ stats) refs result =
    let (pass, more) = fix_missing_blob_ref s opts hash stat refs result in
    elim pass.2 [
      | some e ↦ (pass, more)
      | none ↦ fix_missing_blob_refs pass.0 opts stats more pass.1
    ]
