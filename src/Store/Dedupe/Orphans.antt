-- ===== src/Store/Dedupe/Orphans.antt =====
-- The loop of removeOrphanBlobRef (internal/store/dedupe_refs.go).
use filpe.Prelude.{
  ℕ, zero, suc, ◌<◌, ◌≤◌, ◌≡◌, refl, sym, ◌∙◌, ap, Bool, true, false, none, some, ◌==◌, ==_iff,
  list_equality, number_equality, arith, Bool-cases, inl, inr,
}
use filpe.Prelude.Int.{pos, ltb_ℤ}
use filpe.Prelude.Texts.{Text}
use filpe.Prelude.Words.{two_63, int64_add, int64_sub, int64_sub-pos}
use filpe.Prelude.Maps.{lookup, erase, lookup-erase}
use filpe.Raft.Types.{MetadataBlobRef}
use filpe.Raft.Commands.{State, set_ref}
use filpe.Metadata.{BlobRef}
use filpe.Store.Dedupe.{
  DedupeOptions, DedupeResult, Pass, remove_orphan, count_decrease, delete_removed_blob, plus_one,
}
use filpe.Store.Dedupe.Counting.{
  Counted, OthersKept, Visible, Unlimited, decrement, set_ref-Counted, set_ref-OthersKept,
  limit-Unlimited, raft_decrease_keep, raft_decrease_drop, raft_decrease_missing,
}

-- A pass that ends without an error, the reference of one hash gone.
abbrev pub Frees : Text → State → Pass → Type 0
Frees h s pass = (pass.2 ≡ none) × (lookup h pass.0.blob_refs ≡ none) × OthersKept h s pass.0

erase-OthersKept :
    (s : State) (h : Text) → OthersKept h s (record s { blob_refs = erase h s.blob_refs })
erase-OthersKept s h k other = elim (Bool-cases (h == k)) [
  | inl same ↦ absurd (other (sym ((==_iff h k).0 same)))
  | inr apart ↦ lookup-erase h k s.blob_refs ∙ (rw apart refl)
]

last_round :
    (deletes : Text → Text → Bool) (fuel : ℕ) (s : State) (opts : DedupeOptions) (ref : BlobRef)
    (result : DedupeResult)
    → ((path : Text) → deletes path ref.hash ≡ true)
    → Visible ref.hash
    → Unlimited opts
    → (r : MetadataBlobRef) → lookup ref.hash s.blob_refs ≡ some r
    → ltb_ℤ (pos 1) r.ref_count ≡ false
    → (pass : Pass) × (remove_orphan deletes (suc fuel) s opts ref result ≡ some pass)
      × Frees ref.hash s pass
unfolding remove_orphan delete_removed_blob
last_round deletes fuel s opts ref result del v u r there last =
    let h = ref.hash in
    let e = raft_decrease_drop s h r v there last in
    let next : State = record s { blob_refs = erase h s.blob_refs } in
    let counted = count_decrease result in
    let pass : Pass = (
      next,
      record counted {
        orphan_blob_refs_removed = plus_one counted.orphan_blob_refs_removed;
        bytes_reclaimed = int64_add counted.bytes_reclaimed ref.size;
      },
      none,
    ) in
    let first : remove_orphan deletes (suc fuel) s opts ref result ≡ some pass =
      rw (limit-Unlimited result opts u, ap (λ p. p.1) e, ap (λ p. p.0) e, remove_orphan)
        (rw (del r.path, delete_removed_blob) refl) in
    let gone : lookup h (erase h s.blob_refs) ≡ none =
      lookup-erase h h s.blob_refs ∙ (rw ((==_iff h h).1 refl) refl) in
    (pass, first, (refl, gone, erase-OthersKept s h))

-- The loop of removeOrphanBlobRef ends after as many rounds as the reference is counted, and at
-- least one.
pub remove_orphan-Frees :
    (deletes : Text → Text → Bool) (n fuel : ℕ) (s : State) (opts : DedupeOptions) (ref : BlobRef)
    (result : DedupeResult)
    → ((path : Text) → deletes path ref.hash ≡ true)
    → Visible ref.hash
    → Unlimited opts
    → Counted s ref.hash n
    → n < two_63
    → n ≤ fuel
    → 0 < fuel
    → (pass : Pass) × (remove_orphan deletes fuel s opts ref result ≡ some pass)
      × Frees ref.hash s pass
unfolding remove_orphan delete_removed_blob
remove_orphan-Frees deletes n zero s opts ref result del v u c below enough positive =
    absurd (omega arith)
remove_orphan-Frees deletes zero (suc fuel) s opts ref result del v u c below enough positive =
    last_round deletes fuel s opts ref result del v u c.ref c.there (ap (ltb_ℤ (pos 1)) c.count)
remove_orphan-Frees deletes (suc zero) (suc fuel) s opts ref result del v u c below enough
      positive =
    last_round deletes fuel s opts ref result del v u c.ref c.there (ap (ltb_ℤ (pos 1)) c.count)
remove_orphan-Frees deletes (suc (suc n)) (suc fuel) s opts ref result del v u c below enough
      positive =
    let h = ref.hash in
    let lowered : (decrement c.ref).ref_count ≡ pos (suc n) =
      ap (λ x. int64_sub x (pos 1)) c.count
      ∙ int64_sub-pos (suc (suc n)) 1 (omega arith) below
      ∙ ap pos (omega arith) in
    let more : ltb_ℤ (pos 1) c.ref.ref_count ≡ true = ap (ltb_ℤ (pos 1)) c.count ∙ (ground arith) in
    let next = set_ref s h (decrement c.ref) in
    let later = remove_orphan deletes fuel next opts ref (count_decrease result) in
    let e = raft_decrease_keep s h c.ref v c.there more in
    let first : remove_orphan deletes (suc fuel) s opts ref result ≡ later =
      rw (limit-Unlimited result opts u, ap (λ p. p.1) e, ap (λ p. p.0) e, remove_orphan) refl in
    let (pass, done, (fine, gone, kept)) =
      remove_orphan-Frees deletes (suc n) fuel next opts ref (count_decrease result) del v u
        (set_ref-Counted s h (decrement c.ref) (suc n) lowered) (omega arith) (omega arith)
        (omega arith) in
    (
      pass,
      first ∙ done,
      (fine, gone, λ k other. kept k other ∙ set_ref-OthersKept s h (decrement c.ref) k other),
    )

-- The loop of removeOrphanBlobRef on a reference that is gone, another caller having released it:
-- without a limit on fixes it never ends, however much fuel there is.
pub remove_orphan-spins :
    (deletes : Text → Text → Bool) (fuel : ℕ) (s : State) (opts : DedupeOptions) (ref : BlobRef)
    (result : DedupeResult)
    → Visible ref.hash
    → Unlimited opts
    → lookup ref.hash s.blob_refs ≡ none
    → remove_orphan deletes fuel s opts ref result ≡ none
unfolding remove_orphan
remove_orphan-spins deletes zero s opts ref result v u gone = refl
remove_orphan-spins deletes (suc fuel) s opts ref result v u gone =
    let e = raft_decrease_missing s ref.hash v gone in
    let again = remove_orphan-spins deletes fuel s opts ref (count_decrease result) v u gone in
    rw (limit-Unlimited result opts u, ap (λ p. p.1) e, ap (λ p. p.0) e, remove_orphan) again
