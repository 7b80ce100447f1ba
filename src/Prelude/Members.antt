-- ===== src/Prelude/Members.antt =====
-- Membership in filtered lists and in the values of a map.
use mathlib.Core.List.{Mem, Mem-prop, mem-cons, mem-cons_of_mem, not-mem-nil}
use mathlib.Core.Logic.Or
use filpe.Prelude.{
  ◌≡◌, sym, ◌∙◌, ap, ◌↔◌, inl, inr, Bool, true, Option, none, some, List, [], ◌∷◌, arith,
  Bool-cases, filterb, Equality, ◌==◌, ==_iff,
}
use filpe.Prelude.Maps.{Map, lookup, values, Unique, Each}

module _ {A : Type 0} (p : A → Bool) where
  filterb_keeps : (a : A) (xs : List A) → Mem a (filterb p xs) → Mem a xs × (p a ≡ true)
  filterb_keeps a [] m = absurd (not-mem-nil m)
  filterb_keeps a (x ∷ xs) m = elim (Bool-cases (p x)) [
    | inl e ↦
        Or.elim (hlevel Mem-prop) (mem-cons.0 (rw e at m)) (λ q. (mem-cons.1 (Or.inl q), rw q e))
          (λ r. let (n, t) = filterb_keeps a xs r in (mem-cons_of_mem x n, t))
    | inr e ↦ let (n, t) = filterb_keeps a xs (rw e at m) in (mem-cons_of_mem x n, t)
  ]

  filterb_finds : (a : A) (xs : List A) → Mem a xs → p a ≡ true → Mem a (filterb p xs)
  filterb_finds a [] m t = absurd (not-mem-nil m)
  filterb_finds a (x ∷ xs) m t = elim (Bool-cases (p x)) [
    | inl e ↦ rw e (
        Or.elim Mem-prop (mem-cons.0 m) (λ q. mem-cons.1 (Or.inl q))
          (λ r. mem-cons_of_mem x (filterb_finds a xs r t)))
    | inr e ↦ rw e (
        Or.elim Mem-prop (mem-cons.0 m)
          (λ q. let bad : p x ≡ true = ap p (sym q) ∙ t in absurd (ground arith))
          (λ r. filterb_finds a xs r t))
  ]

  pub mem-filterb : (a : A) (xs : List A) → Mem a (filterb p xs) ↔ (Mem a xs × (p a ≡ true))
  mem-filterb a xs = (filterb_keeps a xs, λ h. filterb_finds a xs h.0 h.1)

module _ {K V : Type 0} ⦃e : Equality K⦄ where
  pub mem-values_of_lookup : (k : K) (v : V) (m : Map K V) → lookup k m ≡ some v → Mem v (values m)
  unfolding lookup
  mem-values_of_lookup k v [] h = absurd (ground arith)
  mem-values_of_lookup k v ((j, w) ∷ m) h = elim (Bool-cases (j == k)) [
    | inl same ↦ mem-cons.1 (Or.inl (ground arith))
    | inr other ↦ mem-cons_of_mem w (mem-values_of_lookup k v m (ground arith))
  ]

  Each-tail :
      {P : K → V → Type 0} (j : K) (w : V) (m : Map K V)
      → lookup j m ≡ none
      → Each P ((j, w) ∷ m)
      → Each P m
  unfolding lookup
  Each-tail j w m new h k v found = h k v (ground (arith, ==_iff j k))

  -- Where every value is stored under its own key.
  module _ (key : V → K) (is_set : IsSet V) where
    some_prop : (o : Option V) (v : V) → IsProp (o ≡ some v)
    some_prop o v = let s : IsSet (Option V) = hlevel is_set in s o (some v)

    lookup_of_mem-values :
        (v : V) (m : Map K V)
        → Unique m
        → Each (λ k w. k ≡ key w) m
        → Mem v (values m)
        → lookup (key v) m ≡ some v
    unfolding lookup
    lookup_of_mem-values v [] u h mem = absurd (not-mem-nil mem)
    lookup_of_mem-values v ((j, w) ∷ m) u h mem =
        Or.elim (some_prop _ v) (mem-cons.0 mem)
          (λ q.
            let jw : j ≡ key w = h j w (ground (arith, ==_iff j j)) in
            let vw : key v ≡ key w = ap key q in ground (arith, ==_iff j (key v), q))
          (λ r.
            let rest = lookup_of_mem-values v m u.1 (Each-tail j w m u.0 h) r in
            ground (arith, ==_iff j (key v)))

    pub mem-values :
        (v : V) (m : Map K V)
        → Unique m
        → Each (λ k w. k ≡ key w) m
        → Mem v (values m) ↔ (lookup (key v) m ≡ some v)
    mem-values v m u h = (lookup_of_mem-values v m u h, mem-values_of_lookup (key v) v m)
