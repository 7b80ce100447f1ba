-- ===== src/Store/Dedupe/Counting.antt =====
-- The loops of internal/store/dedupe_refs.go on the count of one reference.
use filpe.Prelude.{
  ℕ, zero, suc, ◌+◌, ◌<◌, ◌≡◌, ◌≢◌, refl, sym, ◌∙◌, ap, subst, true, false, [], none, some, ◌==◌,
  ==_iff, list_equality, number_equality, arith, Bool-cases, inl, inr,
}
use filpe.Prelude.Results.{ok}
use filpe.Prelude.Int.{pos, ltb_ℤ}
use filpe.Prelude.Texts.{Text, trim_space, is_empty}
use filpe.Prelude.Words.{two_63, int64_add, int64_sub, int64_add-pos, int64_sub-pos}
use filpe.Prelude.Maps.{lookup, erase, lookup-insert}
use filpe.Raft.Types.{MetadataBlobRef}
use filpe.Raft.Commands.{
  State, set_ref, increment, apply_metadata_command, dispatch, apply_increase_blob_ref,
  apply_decrease_blob_ref, invalid_name,
}
use filpe.Metadata.RaftStore
use filpe.Store.Dedupe.{
  DedupeOptions, DedupeResult, Pass, limit_reached, increase_blob_ref, decrease_rounds,
  count_increase, count_decrease,
}

-- The reference of a hash is there with a count.
pub record Counted (s : State) (h : Text) (n : ℕ) : Type 0 where
  pub ref : MetadataBlobRef
  pub there : lookup h s.blob_refs ≡ some ref
  pub count : ref.ref_count ≡ pos n

-- The references of the other hashes are what they were.
abbrev pub OthersKept : Text → State → State → Type 0
OthersKept h s s2 = (k : Text) → k ≢ h → lookup k s2.blob_refs ≡ lookup k s.blob_refs

abbrev pub Visible : Text → Type 0
Visible h = is_empty (trim_space h) ≡ false

abbrev pub Unlimited : DedupeOptions → Type 0
Unlimited opts = ltb_ℤ (pos 0) opts.max_fixes ≡ false

abbrev pub decrement : MetadataBlobRef → MetadataBlobRef
decrement ref = record ref { ref_count = int64_sub ref.ref_count (pos 1) }

pub set_ref-Counted :
    (s : State) (h : Text) (r : MetadataBlobRef) (n : ℕ)
    → r.ref_count ≡ pos n
    → Counted (set_ref s h r) h n
set_ref-Counted s h r n e = record {
  ref = r;
  there = ground (arith, lookup-insert h h r s.blob_refs, ==_iff h h);
  count = e;
}

pub set_ref-OthersKept :
    (s : State) (h : Text) (r : MetadataBlobRef) → OthersKept h s (set_ref s h r)
set_ref-OthersKept s h r k other = elim (Bool-cases (h == k)) [
  | inl same ↦ absurd (other (sym ((==_iff h k).0 same)))
  | inr apart ↦ lookup-insert h k r s.blob_refs ∙ (rw apart refl)
]

pub limit-Unlimited :
    (result : DedupeResult) (opts : DedupeOptions)
    → Unlimited opts
    → limit_reached result opts ≡ false
unfolding limit_reached
limit-Unlimited result opts u = rw u refl

raft_increase :
    (s : State) (h : Text) (r : MetadataBlobRef)
    → Visible h
    → lookup h s.blob_refs ≡ some r
    → RaftStore.increase_blob_ref s h ≡ (set_ref s h (increment r), ok tt)
unfolding RaftStore.increase_blob_ref apply_metadata_command dispatch apply_increase_blob_ref
    invalid_name RaftStore.propose RaftStore.map_raft_error
raft_increase s h r v there = rw (v, there, apply_increase_blob_ref) refl

pub raft_decrease_keep :
    (s : State) (h : Text) (r : MetadataBlobRef)
    → Visible h
    → lookup h s.blob_refs ≡ some r
    → ltb_ℤ (pos 1) r.ref_count ≡ true
    → RaftStore.decrease_blob_ref s h ≡ (set_ref s h (decrement r), ok ([], false))
unfolding RaftStore.decrease_blob_ref apply_metadata_command dispatch apply_decrease_blob_ref
    invalid_name RaftStore.propose RaftStore.map_raft_error
raft_decrease_keep s h r v there more = rw (v, there, more, apply_decrease_blob_ref) refl

pub raft_decrease_drop :
    (s : State) (h : Text) (r : MetadataBlobRef)
    → Visible h
    → lookup h s.blob_refs ≡ some r
    → ltb_ℤ (pos 1) r.ref_count ≡ false
    → RaftStore.decrease_blob_ref s h
      ≡ (record s { blob_refs = erase h s.blob_refs }, ok (r.path, true))
unfolding RaftStore.decrease_blob_ref apply_metadata_command dispatch apply_decrease_blob_ref
    invalid_name RaftStore.propose RaftStore.map_raft_error
raft_decrease_drop s h r v there last = rw (v, there, last, apply_decrease_blob_ref) refl

pub raft_decrease_missing :
    (s : State) (h : Text)
    → Visible h
    → lookup h s.blob_refs ≡ none
    → RaftStore.decrease_blob_ref s h ≡ (s, ok ([], false))
unfolding RaftStore.decrease_blob_ref apply_metadata_command dispatch apply_decrease_blob_ref
    invalid_name RaftStore.propose RaftStore.map_raft_error
raft_decrease_missing s h v gone = rw (v, gone, apply_decrease_blob_ref) refl

-- A pass that ends without an error, the reference of one hash at a count.
abbrev pub Reaches : Text → State → ℕ → Pass → Type 0
Reaches h s n pass = (pass.2 ≡ none) × Counted pass.0 h n × OthersKept h s pass.0

Reaches-later :
    (h : Text) (s : State) (r : MetadataBlobRef) (n : ℕ) (pass : Pass)
    → Reaches h (set_ref s h r) n pass
    → Reaches h s n pass
Reaches-later h s r n pass (fine, counted, kept) =
    (fine, counted, λ k other. kept k other ∙ set_ref-OthersKept s h r k other)

pub increase-Reaches :
    (d n : ℕ) (s : State) (opts : DedupeOptions) (h : Text) (result : DedupeResult)
    → Visible h
    → Unlimited opts
    → Counted s h n
    → n + d < two_63
    → Reaches h s (n + d) (increase_blob_ref s opts h d result)
unfolding increase_blob_ref
increase-Reaches zero n s opts h result v u c below =
    (refl, subst (Counted s h) (omega arith) c, λ k other. refl)
increase-Reaches (suc d) n s opts h result v u c below =
    let raised : (increment c.ref).ref_count ≡ pos (n + 1) =
      ap (λ x. int64_add x (pos 1)) c.count ∙ int64_add-pos n 1 (omega arith) in
    let next = set_ref s h (increment c.ref) in
    let later = increase_blob_ref next opts h d (count_increase result) in
    let rest =
      increase-Reaches d (n + 1) next opts h (count_increase result) v u
        (set_ref-Counted s h (increment c.ref) (n + 1) raised) (omega arith) in
    let sum : n + 1 + d ≡ n + suc d = omega arith in
    let e = raft_increase s h c.ref v c.there in
    let first : increase_blob_ref s opts h (suc d) result ≡ later =
      rw (limit-Unlimited result opts u, ap (λ p. p.1) e, ap (λ p. p.0) e, increase_blob_ref)
        refl in
    subst (Reaches h s (n + suc d)) (sym first) (
      subst (λ m. Reaches h s m later) sum
        (Reaches-later h s (increment c.ref) (n + 1 + d) later rest))

-- Counting down to a count that is not 0.
pub decrease-Reaches :
    (d n : ℕ) (s : State) (opts : DedupeOptions) (h : Text) (result : DedupeResult)
    → Visible h
    → Unlimited opts
    → 0 < n
    → Counted s h (n + d)
    → n + d < two_63
    → Reaches h s n (decrease_rounds s opts h d result)
unfolding decrease_rounds
decrease-Reaches zero n s opts h result v u some_left c below =
    (refl, subst (Counted s h) (omega arith) c, λ k other. refl)
decrease-Reaches (suc d) n s opts h result v u some_left c below =
    let lowered : (decrement c.ref).ref_count ≡ pos (n + d) =
      ap (λ x. int64_sub x (pos 1)) c.count
      ∙ int64_sub-pos (n + suc d) 1 (omega arith) below
      ∙ ap pos (omega arith) in
    let more : ltb_ℤ (pos 1) c.ref.ref_count ≡ true = ap (ltb_ℤ (pos 1)) c.count ∙ (ground arith) in
    let next = set_ref s h (decrement c.ref) in
    let later = decrease_rounds next opts h d (count_decrease result) in
    let rest =
      decrease-Reaches d n next opts h (count_decrease result) v u some_left
        (set_ref-Counted s h (decrement c.ref) (n + d) lowered) (omega arith) in
    let e = raft_decrease_keep s h c.ref v c.there more in
    let first : decrease_rounds s opts h (suc d) result ≡ later =
      rw (limit-Unlimited result opts u, ap (λ p. p.1) e, ap (λ p. p.0) e, decrease_rounds) refl in
    subst (Reaches h s n) (sym first) (Reaches-later h s (decrement c.ref) n later rest)
