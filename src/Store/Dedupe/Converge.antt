-- ===== src/Store/Dedupe/Converge.antt =====
-- What a run of fixExistingBlobRefs (internal/store/dedupe_refs.go) without a limit comes to.
use filpe.Prelude.{
  ℕ, zero, suc, ◌+◌, ◌-◌, ◌<◌, ◌≤◌, ◌≡◌, ◌≢◌, refl, sym, ◌∙◌, ap, subst, Bool, true, false, [], ◌∷◌,
  Option, none, some, ◌==◌, ==_iff, list_equality, number_equality, arith, Bool-cases, inl, inr,
}
use filpe.Prelude.Int.{pos, ltb_ℤ, ◌-ℤ◌}
use filpe.Prelude.Texts.{Text, is_empty, trim_space}
use filpe.Prelude.Words.{two_63}
use filpe.Prelude.Maps.{lookup}
use filpe.Raft.Commands.{State}
use filpe.Metadata.{BlobRef}
use filpe.Store.Dedupe.{
  DedupeOptions, DedupeResult, Stats, Pass, rounds_between, increase_blob_ref, decrease_to_expected,
  decrease_rounds,
}
use filpe.Store.Dedupe.Fixes.{
  same_count, is_zero, count_orphan, record_drift, fix_blob_ref_count, fix_existing_blob_ref,
}
use filpe.Store.Dedupe.Stats.{stat_count}
use filpe.Store.Dedupe.Counting.{
  Counted, OthersKept, Visible, Unlimited, increase-Reaches, decrease-Reaches,
}
use filpe.Store.Dedupe.Orphans.{remove_orphan-Frees}

-- A listed reference is there as it is listed, with a count that is not 0.
pub record Ready (fuel : ℕ) (s : State) (ref : BlobRef) : Type 0 where
  pub visible : Visible ref.hash
  pub count : ℕ
  pub listed : ref.ref_count ≡ pos count
  pub counted : Counted s ref.hash count
  pub some_left : 0 < count
  pub below : count < two_63
  pub enough : count ≤ fuel

-- The reference of a hash is gone where nothing is expected, and has the expected count otherwise.
abbrev pub Settled : State → Text → ℕ → Type 0
Settled s h zero = lookup h s.blob_refs ≡ none
Settled s h (suc n) = Counted s h (suc n)

rounds_between-pos : (a b : ℕ) → b ≤ a → rounds_between (pos a) (pos b) ≡ a - b
unfolding rounds_between ◌-ℤ◌
rounds_between-pos a b h = ground arith

-- A pass that ends without an error and settles one hash.
abbrev Settles : State → Text → ℕ → Option Pass → Type 0
Settles s h n end =
    (pass : Pass) × (end ≡ some pass) × (pass.2 ≡ none) × Settled pass.0 h n × OthersKept h s pass.0

nonzero : (n : ℕ) → is_zero (pos (suc n)) ≡ false
unfolding same_count
nonzero n = ground arith

fix_count-Settles :
    (deletes : Text → Text → Bool) (fuel : ℕ) (s : State) (opts : DedupeOptions) (ref : BlobRef)
    (n : ℕ) (result : DedupeResult)
    → ((path : Text) → deletes path ref.hash ≡ true)
    → Unlimited opts
    → (r : Ready fuel s ref) → n < two_63
    → n ≢ r.count
    → Settles s ref.hash n (fix_blob_ref_count deletes fuel s opts ref (pos n) result)
unfolding fix_blob_ref_count same_count decrease_to_expected
fix_count-Settles deletes fuel s opts ref zero result del u r below apart =
    let (pass, done, (fine, gone, kept)) =
      remove_orphan-Frees deletes r.count fuel s opts ref (count_orphan ref result) del r.visible u
        r.counted r.below r.enough (omega (arith, r.some_left, r.enough)) in
    (pass, done, fine, gone, kept)
fix_count-Settles deletes fuel s opts ref (suc n) result del u r below apart =
    elim (Bool-cases (ltb_ℤ (pos r.count) (pos (suc n)))) [
      | inl lower ↦
          let c = r.count in
          let h = ref.hash in
          let lt : c < suc n = ground (arith, lower) in
          let d = suc n - c in
          let rounds : rounds_between (pos (suc n)) ref.ref_count ≡ d =
            ap (rounds_between (pos (suc n))) r.listed
            ∙ rounds_between-pos (suc n) c (omega (arith, lt)) in
          let test : ltb_ℤ ref.ref_count (pos (suc n)) ≡ true =
            ap (λ x. ltb_ℤ x (pos (suc n))) r.listed ∙ lower in
          let (fine, counted, kept) =
            increase-Reaches d c s opts h result r.visible u r.counted (omega (arith, lt)) in
          let end : c + d ≡ suc n = omega (arith, lt) in
          let pass = increase_blob_ref s opts h d result in
          (
            pass,
            (rw (nonzero n, test, rounds) refl),
            fine,
            subst (Counted pass.0 h) end counted,
            kept,
          )
      | inr higher ↦
          let c = r.count in
          let h = ref.hash in
          let le : suc n ≤ c = ground (arith, higher) in
          let d = c - suc n in
          let rounds : rounds_between ref.ref_count (pos (suc n)) ≡ d =
            ap (λ x. rounds_between x (pos (suc n))) r.listed ∙ rounds_between-pos c (suc n) le in
          let test : ltb_ℤ ref.ref_count (pos (suc n)) ≡ false =
            ap (λ x. ltb_ℤ x (pos (suc n))) r.listed ∙ higher in
          let sum : c ≡ suc n + d = omega (arith, le) in
          let start = subst (Counted s h) sum r.counted in
          let (fine, counted, kept) =
            decrease-Reaches d (suc n) s opts h result r.visible u (omega arith) start
              (omega (arith, sum, r.below)) in
          (
            decrease_rounds s opts h d result,
            (rw (nonzero n, test, rounds) refl),
            fine,
            counted,
            kept,
          )
    ]

same_count-pos : (a b : ℕ) → same_count (pos a) (pos b) ≡ (a == b)
unfolding same_count
same_count-pos a b = refl

fix_step :
    (deletes : Text → Text → Bool) (fuel : ℕ) (s : State) (opts : DedupeOptions) (stats : Stats)
    (ref : BlobRef) (result : DedupeResult)
    → same_count (stat_count stats ref.hash) ref.ref_count ≡ false
    → opts.dry_run ≡ false
    → fix_existing_blob_ref deletes fuel s opts stats ref result
      ≡ fix_blob_ref_count deletes fuel s opts ref
          (stat_count stats ref.hash)
          (record_drift ref (stat_count stats ref.hash) result)
unfolding fix_existing_blob_ref
fix_step deletes fuel s opts stats ref result odd wet = simp (odd, wet) refl

pub Visible-named : (h : Text) → Visible h → is_empty h ≡ false
unfolding trim_space
Visible-named [] v = v
Visible-named (c ∷ h) v = refl

pub fix_ref-Settles :
    (deletes : Text → Text → Bool) (fuel : ℕ) (s : State) (opts : DedupeOptions) (stats : Stats)
    (ref : BlobRef) (n : ℕ) (result : DedupeResult)
    → ((path : Text) → deletes path ref.hash ≡ true)
    → Unlimited opts
    → opts.dry_run ≡ false
    → Ready fuel s ref
    → stat_count stats ref.hash ≡ pos n
    → n < two_63
    → Settles s ref.hash n (fix_existing_blob_ref deletes fuel s opts stats ref result)
unfolding fix_existing_blob_ref
fix_ref-Settles deletes fuel s opts stats ref n result del u wet r expected below =
    elim (Bool-cases (n == r.count)) [
      | inl same ↦
          let even : same_count (stat_count stats ref.hash) ref.ref_count ≡ true =
            ap (λ x. same_count x ref.ref_count) expected
            ∙ ap (same_count (pos n)) r.listed
            ∙ same_count-pos n r.count
            ∙ same in
          let nc : r.count ≡ n = sym ((==_iff n r.count).0 same) in
          let stays = settled_now n r.counted nc r.some_left in
          ((s, result, none), (rw even refl), refl, stays, λ k other. refl)
      | inr apart ↦
          let odd : same_count (stat_count stats ref.hash) ref.ref_count ≡ false =
            ap (λ x. same_count x ref.ref_count) expected
            ∙ ap (same_count (pos n)) r.listed
            ∙ same_count-pos n r.count
            ∙ apart in
          let ne : n ≢ r.count = λ q. absurd (ground (arith, (==_iff n r.count).1 q)) in
          let (pass, done, fine, settled, kept) =
            fix_count-Settles deletes fuel s opts ref n (record_drift ref (pos n) result) del u r
              below ne in
          let step = fix_step deletes fuel s opts stats ref result odd wet in
          let fixed =
            ap (λ e. fix_blob_ref_count deletes fuel s opts ref e (record_drift ref e result))
              expected in
          (pass, step ∙ fixed ∙ done, fine, settled, kept)
    ]
  where
    settled_now : (n : ℕ) {c : ℕ} → Counted s ref.hash c → c ≡ n → 0 < c → Settled s ref.hash n
    settled_now zero counted e left = absurd (omega arith)
    settled_now (suc n) counted e left = subst (Counted s ref.hash) e counted
