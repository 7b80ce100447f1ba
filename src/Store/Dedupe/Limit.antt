-- ===== src/Store/Dedupe/Limit.antt =====
-- The limit on fixes of internal/store/dedupe_refs.go.
use filpe.Prelude.{
  ℕ, zero, suc, ◌+◌, ◌<◌, ◌≤◌, ◌≡◌, refl, sym, ◌∙◌, ap, subst, Bool, true, false, List, [], ◌∷◌,
  Option, none, some, Bool-cases, Option-cases, inl, inr, arith, ◌&&◌, not, list_equality,
  number_equality, leb, length,
}
use filpe.Prelude.Results.{Result-cases}
use filpe.Prelude.Int.{ℤ, pos, ltb_ℤ}
use filpe.Prelude.Words.{two_63, int64_add-pos}
use filpe.Prelude.Texts.{Text}
use filpe.Raft.Commands.{State}
use filpe.Metadata.{BlobRef}
use filpe.Metadata.RaftStore
use filpe.Store.Dedupe.{
  DedupeOptions, DedupeResult, Stats, Pass, plus_one, limit_reached, increase_blob_ref,
  decrease_rounds, remove_orphan, delete_removed_blob, count_increase, count_decrease, add_issue,
  max_dedupe_issues, decrease_to_expected, rounds_between,
}
use filpe.Store.Dedupe.Stats.{stat_count}
use filpe.Store.Dedupe.Fixes.{
  same_count, is_zero, count_orphan, record_drift, record_dry_run_orphan, fix_blob_ref_count,
  fix_existing_blob_ref, fix_existing_blob_refs,
}

module _ (cap : ℕ) where
  -- A result with no more fixes than the limit.
  abbrev pub Within : DedupeResult → Type 0
  Within result = (f : ℕ) × (result.fixes ≡ pos f) × (f ≤ cap)

  -- Options with the limit.
  abbrev pub Capped : DedupeOptions → Type 0
  Capped opts = (opts.max_fixes ≡ pos cap) × (0 < cap) × (cap < two_63)

  -- Below the limit there is room for a fix.
  one_more :
      (result : DedupeResult) (opts : DedupeOptions)
      → Capped opts
      → limit_reached result opts ≡ false
      → (w : Within result) → (plus_one result.fixes ≡ pos (w.0 + 1)) × (w.0 + 1 ≤ cap)
  unfolding limit_reached
  one_more result opts (max, positive, small) free (f, is, le) =
      let open_ : (ltb_ℤ (pos 0) (pos cap) && not (ltb_ℤ (pos f) (pos cap))) ≡ false =
        ap (λ c. ltb_ℤ (pos 0) c && not (ltb_ℤ (pos f) c)) (sym max)
        ∙ ap (λ x. ltb_ℤ (pos 0) opts.max_fixes && not (ltb_ℤ x opts.max_fixes)) (sym is)
        ∙ free in
      let room : f + 1 ≤ cap = ground (arith, open_, positive) in
      (ap plus_one is ∙ int64_add-pos f 1 (omega (arith, room, small)), room)

  abbrev fixed_once :
      (result : DedupeResult) (opts : DedupeOptions)
      → Capped opts
      → limit_reached result opts ≡ false
      → Within result
      → (f : ℕ) × (plus_one result.fixes ≡ pos f) × (f ≤ cap)
  fixed_once result opts c free w =
      let (counted, room) = one_more result opts c free w in (w.0 + 1, counted, room)

  increase-Within :
      (d : ℕ) (s : State) (opts : DedupeOptions) (h : Text) (result : DedupeResult)
      → Capped opts
      → Within result
      → Within (increase_blob_ref s opts h d result).1
  unfolding increase_blob_ref
  increase-Within zero s opts h result c w = w
  increase-Within (suc d) s opts h result c w = elim (Bool-cases (limit_reached result opts)) [
    | inl at ↦ rw (at, increase_blob_ref) w
    | inr free ↦ elim (Result-cases (RaftStore.increase_blob_ref s h).1) [
      | inl (e, bad) ↦ rw (free, bad, increase_blob_ref) w
      | inr (u, fine) ↦
          rw (free, fine, increase_blob_ref)
            (increase-Within d (RaftStore.increase_blob_ref s h).0 opts h (count_increase result) c
              (fixed_once result opts c free w))
    ]
  ]

  decrease-Within :
      (d : ℕ) (s : State) (opts : DedupeOptions) (h : Text) (result : DedupeResult)
      → Capped opts
      → Within result
      → Within (decrease_rounds s opts h d result).1
  unfolding decrease_rounds
  decrease-Within zero s opts h result c w = w
  decrease-Within (suc d) s opts h result c w = elim (Bool-cases (limit_reached result opts)) [
    | inl at ↦ rw (at, decrease_rounds) w
    | inr free ↦ elim (Result-cases (RaftStore.decrease_blob_ref s h).1) [
      | inl (e, bad) ↦ rw (free, bad, decrease_rounds) w
      | inr (u, fine) ↦
          rw (free, fine, decrease_rounds)
            (decrease-Within d (RaftStore.decrease_blob_ref s h).0 opts h (count_decrease result) c
              (fixed_once result opts c free w))
    ]
  ]

  -- A run that has not run out of fuel, and has made no more fixes than the limit.
  abbrev pub EndsWithin : Option Pass → Type 0
  EndsWithin none = ⊥
  EndsWithin (some pass) = Within pass.1

  delete-Within :
      (deletes : Text → Text → Bool) (s : State) (path : Text) (ref : BlobRef)
      (result : DedupeResult)
      → Within result
      → Within (delete_removed_blob deletes s path ref result).1
  unfolding delete_removed_blob
  delete-Within deletes s path ref result w = elim (Bool-cases (deletes path ref.hash)) [
    | inl gone ↦ rw (gone, delete_removed_blob) w
    | inr left ↦ rw (left, delete_removed_blob) w
  ]

  remove_orphan-Within :
      (deletes : Text → Text → Bool) (fuel : ℕ) (s : State) (opts : DedupeOptions) (ref : BlobRef)
      (result : DedupeResult)
      → Capped opts
      → (w : Within result) → cap < w.0 + fuel
      → EndsWithin (remove_orphan deletes fuel s opts ref result)
  unfolding remove_orphan
  remove_orphan-Within deletes zero s opts ref result c w room = absurd (omega (arith, w.2))
  remove_orphan-Within deletes (suc fuel) s opts ref result c w room =
      elim (Bool-cases (limit_reached result opts)) [
        | inl at ↦ rw (at, remove_orphan) w
        | inr free ↦ elim (Result-cases (RaftStore.decrease_blob_ref s ref.hash).1) [
          | inl (e, bad) ↦ rw (free, bad, remove_orphan) w
          | inr ((path, true), fine) ↦
              rw (free, fine, remove_orphan)
                (delete-Within deletes (RaftStore.decrease_blob_ref s ref.hash).0 path ref
                  (count_decrease result) (fixed_once result opts c free w))
          | inr ((path, false), fine) ↦
              rw (free, fine, remove_orphan)
                (remove_orphan-Within deletes fuel (RaftStore.decrease_blob_ref s ref.hash).0 opts
                  ref (count_decrease result) c (fixed_once result opts c free w) (omega arith))
        ]
      ]

  record_drift-fixes :
      (ref : BlobRef) (expected : ℤ) (result : DedupeResult)
      → (record_drift ref expected result).fixes ≡ result.fixes
  unfolding record_drift add_issue
  record_drift-fixes ref expected result =
      elim (Bool-cases (leb max_dedupe_issues (length result.issues))) [
        | inl full ↦ rw full refl
        | inr room ↦ rw room refl
      ]

  dry_orphan-fixes :
      (ref : BlobRef) (expected : ℤ) (result : DedupeResult)
      → (record_dry_run_orphan ref expected result).fixes ≡ result.fixes
  unfolding record_dry_run_orphan
  dry_orphan-fixes ref expected result = elim (Bool-cases (is_zero expected)) [
    | inl orphan ↦ rw orphan refl
    | inr wanted ↦ rw wanted refl
  ]

  Within-same : (a b : DedupeResult) → b.fixes ≡ a.fixes → Within a → Within b
  Within-same a b e (f, is, le) = (f, e ∙ is, le)

  fix_count-Within :
      (deletes : Text → Text → Bool) (fuel : ℕ) (s : State) (opts : DedupeOptions) (ref : BlobRef)
      (expected : ℤ) (result : DedupeResult)
      → Capped opts
      → Within result
      → cap < fuel
      → EndsWithin (fix_blob_ref_count deletes fuel s opts ref expected result)
  unfolding fix_blob_ref_count decrease_to_expected
  fix_count-Within deletes fuel s opts ref expected result c w enough =
      elim (Bool-cases (is_zero expected)) [
        | inl orphan ↦
            rw (orphan, fix_blob_ref_count)
              (remove_orphan-Within deletes fuel s opts ref (count_orphan ref result) c w
                (omega (arith, enough)))
        | inr wanted ↦ elim (Bool-cases (ltb_ℤ ref.ref_count expected)) [
          | inl few ↦
              rw (wanted, few, fix_blob_ref_count)
                (increase-Within (rounds_between expected ref.ref_count) s opts ref.hash result c w)
          | inr many ↦
              rw (wanted, many, fix_blob_ref_count)
                (decrease-Within (rounds_between ref.ref_count expected) s opts ref.hash result c w)
        ]
      ]

  fix_ref-Within :
      (deletes : Text → Text → Bool) (fuel : ℕ) (s : State) (opts : DedupeOptions) (stats : Stats)
      (ref : BlobRef) (result : DedupeResult)
      → Capped opts
      → Within result
      → cap < fuel
      → EndsWithin (fix_existing_blob_ref deletes fuel s opts stats ref result)
  unfolding fix_existing_blob_ref
  fix_ref-Within deletes fuel s opts stats ref result c w enough =
      let expected = stat_count stats ref.hash in
      let drifted = record_drift ref expected result in
      let w2 = Within-same result drifted (record_drift-fixes ref expected result) w in
      elim (Bool-cases (same_count expected ref.ref_count)) [
        | inl even ↦ rw (even, fix_existing_blob_ref) w
        | inr odd ↦ elim (Bool-cases opts.dry_run) [
          | inl dry ↦
              simp (odd, dry)
                (Within-same drifted (record_dry_run_orphan ref expected drifted)
                  (dry_orphan-fixes ref expected drifted) w2)
          | inr wet ↦
              simp (odd, wet)
                (fix_count-Within deletes fuel s opts ref expected drifted c w2 enough)
        ]
      ]

  -- Under a limit, a pass over the listed references ends, given more fuel than the limit, and has
  -- made no more fixes than the limit, those made before included, in a dry run too.
  pub fix_existing-Within :
      (deletes : Text → Text → Bool) (fuel : ℕ) (opts : DedupeOptions) (stats : Stats)
      (refs : List BlobRef) (s : State) (result : DedupeResult)
      → Capped opts
      → Within result
      → cap < fuel
      → EndsWithin (fix_existing_blob_refs deletes fuel s opts stats refs result)
  unfolding fix_existing_blob_refs
  fix_existing-Within deletes fuel opts stats [] s result c w enough = w
  fix_existing-Within deletes fuel opts stats (ref ∷ refs) s result c w enough =
      let first = fix_ref-Within deletes fuel s opts stats ref result c w enough in
      elim (Option-cases (fix_existing_blob_ref deletes fuel s opts stats ref result)) [
        | inl out ↦ absurd (subst EndsWithin out first)
        | inr (pass, ended) ↦
            let w2 : Within pass.1 = subst EndsWithin ended first in
            elim (Option-cases pass.2) [
              | inl fine ↦
                  rw (ended, fix_existing_blob_refs)
                    (rw fine
                      (fix_existing-Within deletes fuel opts stats refs pass.0 pass.1 c w2 enough))
              | inr (e, failed) ↦ rw (ended, fix_existing_blob_refs) (rw failed w2)
            ]
      ]
