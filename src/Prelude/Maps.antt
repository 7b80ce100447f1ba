-- ===== src/Prelude/Maps.antt =====
-- Go's `map` as an association list: the entries in one of the orders a `range` may visit them.
use filpe.Prelude.{
  ◌≡◌, refl, inl, inr, Bool, true, false, Option, none, some, List, [], ◌∷◌, arith, if◌then◌else◌,
  Bool-cases, Equality, ◌==◌, ==_iff, is_some, sym, ◌∙◌,
}

abbrev pub Map : Type 0 → Type 0 → Type 0
Map K V = List (K × V)

module _ {K V : Type 0} ⦃e : Equality K⦄ where
  -- `v, ok := m[k]`
  unfoldable pub lookup : K → Map K V → Option V
  lookup key [] = none
  lookup key ((at, value) ∷ rest) = if at == key then some value else lookup key rest

  -- `m[k] = v`
  unfoldable pub insert : K → V → Map K V → Map K V
  insert key new [] = (key, new) ∷ []
  insert key new ((at, value) ∷ rest) =
      if at == key then (key, new) ∷ rest else (at, value) ∷ insert key new rest

  -- `delete(m, k)`
  unfoldable pub erase : K → Map K V → Map K V
  erase k [] = []
  erase k ((j, w) ∷ m) = let rest = erase k m in if j == k then rest else (j, w) ∷ rest

  -- `for k := range m { if p m[k] { delete(m, k) } }`
  unfoldable pub erase_where : (V → Bool) → Map K V → Map K V
  erase_where p [] = []
  erase_where p ((j, w) ∷ m) = let rest = erase_where p m in if p w then rest else (j, w) ∷ rest

  abbrev pub has : K → Map K V → Bool
  has k m = is_some (lookup k m)

-- What is left of an entry when the values that `p` accepts are deleted.
abbrev pub keep_unless : {V : Type 0} → (V → Bool) → Option V → Option V
keep_unless p none = none
keep_unless p (some v) = if p v then none else some v

abbrev pub values : {K V : Type 0} → Map K V → List V
values [] = []
values ((k, v) ∷ m) = v ∷ values m

abbrev pub keys : {K V : Type 0} → Map K V → List K
keys [] = []
keys ((k, v) ∷ m) = k ∷ keys m

module _ {K V : Type 0} ⦃e : Equality K⦄ where
  pub lookup-insert :
      (key other : K) (new : V) (m : Map K V)
      → lookup other (insert key new m) ≡ (if key == other then some new else lookup other m)
  unfolding lookup insert
  lookup-insert key other new [] = refl
  lookup-insert key other new ((at, value) ∷ rest) =
      ground
        (arith, ==_iff key other, ==_iff at key, ==_iff at other, lookup-insert key other new rest)

  pub lookup-erase :
      (k j : K) (m : Map K V) → lookup j (erase k m) ≡ (if k == j then none else lookup j m)
  unfolding lookup erase
  lookup-erase k j [] = ground arith
  lookup-erase k j ((i, w) ∷ m) =
      ground (arith, ==_iff k j, ==_iff i k, ==_iff i j, lookup-erase k j m)

  -- Each key stands once.
  abbrev pub Unique : Map K V → Type 0
  Unique [] = Unit {0}
  Unique ((k, v) ∷ m) = (lookup k m ≡ none) × Unique m

  pub insert-Unique : (k : K) (v : V) (m : Map K V) → Unique m → Unique (insert k v m)
  unfolding insert
  insert-Unique k v [] u = (unfold lookup in refl, tt)
  insert-Unique k v ((j, w) ∷ m) u =
      ground (arith, ==_iff j k, ==_iff k j, lookup-insert k j v m, insert-Unique k v m u.1)

  pub erase-Unique : (k : K) (m : Map K V) → Unique m → Unique (erase k m)
  unfolding erase
  erase-Unique k [] u = tt
  erase-Unique k ((j, w) ∷ m) u =
      ground (arith, ==_iff k j, ==_iff j k, lookup-erase k j m, erase-Unique k m u.1)

  pub lookup-erase_where :
      (p : V → Bool) (k : K) (m : Map K V)
      → Unique m
      → lookup k (erase_where p m) ≡ keep_unless p (lookup k m)
  unfolding lookup erase_where
  lookup-erase_where p k [] u = refl
  lookup-erase_where p k ((j, w) ∷ m) u = ground (arith, ==_iff j k, lookup-erase_where p k m u.1)

  pub erase_where-Unique : (p : V → Bool) (m : Map K V) → Unique m → Unique (erase_where p m)
  unfolding erase_where
  erase_where-Unique p [] u = tt
  erase_where-Unique p ((j, w) ∷ m) u =
      ground (arith, lookup-erase_where p j m u.1, erase_where-Unique p m u.1)

  -- A property of every entry, by key.
  abbrev pub Each : (K → V → Type 0) → Map K V → Type 0
  Each P m = (k : K) (v : V) → lookup k m ≡ some v → P k v

  pub insert-Each :
      {P : K → V → Type 0} (k : K) (v : V) (m : Map K V) → P k v → Each P m → Each P (insert k v m)
  insert-Each {P} k v m pv h j w found = elim (Bool-cases (k == j)) [
    | inl same ↦ go same
    | inr other ↦ h j w (sym (lookup-insert k j v m ∙ pick other) ∙ found)
  ]
    where
      pick : (k == j) ≡ false → (if k == j then some v else lookup j m) ≡ lookup j m
      pick o = rw o

      go : (k == j) ≡ true → P j w
      go same =
          let kj : k ≡ j = (==_iff k j).0 same in
          let vw : some v ≡ some w = sym (lookup-insert k j v m ∙ (rw same)) ∙ found in
          let e2 : v ≡ w = ground arith in rw (← kj, ← e2) pv

  pub erase-Each : {P : K → V → Type 0} (k : K) (m : Map K V) → Each P m → Each P (erase k m)
  erase-Each k m h j w found = elim (Bool-cases (k == j)) [
    | inl same ↦ let bad : lookup j (erase k m) ≡ none = lookup-erase k j m ∙ (rw same) in cc
    | inr other ↦ h j w (ground (arith, lookup-erase k j m))
  ]

  pub erase_where-Each :
      {P : K → V → Type 0} (p : V → Bool) (m : Map K V)
      → Unique m
      → Each P m
      → Each P (erase_where p m)
  erase_where-Each p m u h j w found = h j w (ground (arith, lookup-erase_where p j m u))

  pub Each-mono :
      {P Q : K → V → Type 0} (m : Map K V) → ((k : K) (v : V) → P k v → Q k v) → Each P m → Each Q m
  Each-mono m f h k v found = f k v (h k v found)

  -- What `erase_where` keeps was there, and failed the test.
  pub lookup-erase_where-some :
      (p : V → Bool) (k : K) (m : Map K V) (v : V)
      → Unique m
      → lookup k (erase_where p m) ≡ some v
      → (lookup k m ≡ some v) × (p v ≡ false)
  lookup-erase_where-some p k m v u found = ground (arith, lookup-erase_where p k m u)

  pub has-insert : (k j : K) (v : V) (m : Map K V) → has j m ≡ true → has j (insert k v m) ≡ true
  has-insert k j v m h = ground (arith, lookup-insert k j v m)

  pub has-erase_ne :
      (k j : K) (m : Map K V) → (j == k) ≡ false → has j m ≡ true → has j (erase k m) ≡ true
  has-erase_ne k j m ne h = ground (arith, lookup-erase k j m, ==_iff j k, ==_iff k j)
