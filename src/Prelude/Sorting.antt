-- ===== src/Prelude/Sorting.antt =====
-- `sort.Slice` and `slices.SortFunc` by a Boolean `less`, as an insertion sort: which of the
-- permitted orders of equal entries Go picks is not specified.
use mathlib.Core.List.{Perm}
use mathlib.Core.List.Perm
use filpe.Prelude.{
  ◌≡◌, inl, inr, Bool, true, false, List, [], ◌∷◌, arith, if◌then◌else◌, Bool-cases,
}

module _ {A : Type 0} (less : A → A → Bool) where
  unfoldable pub place : A → List A → List A
  place x [] = x ∷ []
  place x (y ∷ ys) = if less y x then y ∷ place x ys else x ∷ y ∷ ys

  unfoldable pub sort_by : List A → List A
  unfolding place
  sort_by [] = []
  sort_by (x ∷ xs) = place x (sort_by xs)

  -- No entry is below its predecessor.
  abbrev pub IsSorted : List A → Type 0
  IsSorted [] = Unit {0}
  IsSorted (x ∷ []) = Unit {0}
  IsSorted (x ∷ y ∷ ys) = (less y x ≡ false) × IsSorted (y ∷ ys)

  module _ (asym : (a b : A) → less a b ≡ true → less b a ≡ false) where
    place-IsSorted : (x : A) (ys : List A) → IsSorted ys → IsSorted (place x ys)
    unfolding place
    place-IsSorted x [] h = tt
    place-IsSorted x (y ∷ []) h = ground (arith, asym y x)
    place-IsSorted x (y ∷ z ∷ ys) h =
        ground (arith, asym y x, asym z x, place-IsSorted x (z ∷ ys) h.1)

    pub sort_by-IsSorted : (xs : List A) → IsSorted (sort_by xs)
    unfolding sort_by
    sort_by-IsSorted [] = tt
    sort_by-IsSorted (x ∷ xs) = place-IsSorted x (sort_by xs) (sort_by-IsSorted xs)

  place-perm : (x : A) (ys : List A) → Perm (place x ys) (x ∷ ys)
  unfolding place
  place-perm x [] = Perm.refl (x ∷ [])
  place-perm x (y ∷ ys) = elim (Bool-cases (less y x)) [
    | inl below ↦ rw below (Perm.trans (Perm.cons y (place-perm x ys)) (Perm.swap x y ys))
    | inr above ↦ rw above (Perm.refl (x ∷ y ∷ ys))
  ]

  pub sort_by-perm : (xs : List A) → Perm (sort_by xs) xs
  unfolding sort_by
  sort_by-perm [] = Perm.refl []
  sort_by-perm (x ∷ xs) = Perm.trans (place-perm x (sort_by xs)) (Perm.cons x (sort_by-perm xs))
