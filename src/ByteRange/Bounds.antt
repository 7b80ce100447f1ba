-- ===== src/ByteRange/Bounds.antt =====
-- The ranges that `Parse` accepts (internal/bytesrange/range.go) lie inside the object, and
-- `Slice` and `ContentLength` agree on them.
use filpe.Prelude.{
  ℕ, zero, suc, ◌+◌, ◌-◌, ◌≤◌, ◌<◌, ◌≡◌, refl, subst, ◌⊎◌, inl, inr, true, Option, none, some, List,
  [], ◌∷◌, arith, if◌then◌else◌, ltb, length, take, drop, get_elem?, length-take, length-drop,
}
use filpe.Prelude.Results.{Result, ok, err}
use filpe.Prelude.Int.{ℤ, pos, negsuc}
use filpe.Prelude.Words.{two_63, int64_add-pos, int64_sub-pos}
use filpe.Prelude.Texts.{Text, trim_space}
use filpe.ByteRange.{
  RangeError, Spec, full, split_dash, suffix_bounds, split_bounds, parse_bounds, parse_header,
  parse, content_length, slice,
}

abbrev InBounds : ℕ → Result RangeError (ℕ × ℕ) → Type 0
InBounds size (ok (a, b)) = (a ≤ b) × (b < size)
InBounds size (err e) = Unit

suffix-InBounds : (value : Text) (size : ℕ) → 0 < size → InBounds size (suffix_bounds value size)
unfolding suffix_bounds
suffix-InBounds value size h = ground arith

split-InBounds :
    (before after : Text) (size : ℕ) → 0 < size → InBounds size (split_bounds before after size)
unfolding split_bounds
split-InBounds [] after size h = suffix-InBounds after size h
split-InBounds (c ∷ before) after size h = ground arith

bounds-InBounds : (value : Text) (size : ℕ) → 0 < size → InBounds size (parse_bounds value size)
unfolding parse_bounds
bounds-InBounds value size h =
    elim (split_dash value)
      as (λ o. InBounds size (elim o [
        | none ↦ err RangeError.missing_separator
        | some (before, after) ↦ split_bounds before after size
      ])) [ none ↦ tt | some (before, after) ↦ split-InBounds before after size h ]

abbrev pub partial_spec : ℕ → ℕ → ℕ → Spec
partial_spec a b n = record { start = pos a; end = pos b; size = pos n; partial = true }

-- The whole object, or the bytes from a to b inside it.
pub data IsRange (n : ℕ) (spec : Spec) : Type 0 where
  whole : spec ≡ full (pos n) → IsRange n spec
  part : (a b : ℕ) → spec ≡ partial_spec a b n → a ≤ b → b < n → IsRange n spec

header_partial :
    (header : Text) (n a b : ℕ) (spec : Spec)
    → parse_bounds (trim_space (drop 6 header)) n ≡ ok (a, b)
    → parse_header header n ≡ ok spec
    → (spec ≡ full (pos n)) ⊎ ((spec ≡ partial_spec a b n) × (0 < n))
unfolding parse_header
header_partial header n a b spec e h = ground arith

header_refused :
    (header : Text) (n : ℕ) (spec : Spec) (x : RangeError)
    → parse_bounds (trim_space (drop 6 header)) n ≡ err x
    → parse_header header n ≡ ok spec
    → spec ≡ full (pos n)
unfolding parse_header
header_refused header n spec x e h = ground arith

header-IsRange :
    (header : Text) (n : ℕ) (spec : Spec) → parse_header header n ≡ ok spec → IsRange n spec
header-IsRange header n spec h = go (parse_bounds (trim_space (drop 6 header)) n) refl
  where
    go :
        (r : Result RangeError (ℕ × ℕ))
        → parse_bounds (trim_space (drop 6 header)) n ≡ r
        → IsRange n spec
    go (err x) e = whole (header_refused header n spec x e h)
    go (ok (a, b)) e = elim (header_partial header n a b spec e h) [
      | inl all ↦ whole all
      | inr (some_, positive) ↦
          let (p, q) =
            subst (InBounds n) e (bounds-InBounds (trim_space (drop 6 header)) n positive) in
          part a b some_ p q
    ]

-- Every range that `Parse` accepts is of an object whose size is not negative, and is the whole
-- object or starts and ends inside it.
pub parse-IsRange :
    (header : Text) (size : ℤ) (spec : Spec)
    → parse header size ≡ ok spec
    → (n : ℕ) × (size ≡ pos n) × IsRange n spec
unfolding parse
parse-IsRange header (negsuc n) spec h = absurd (ground arith)
parse-IsRange header (pos n) spec h = (n, refl, header-IsRange (trim_space header) n spec h)

get_elem?-window :
    {A : Type 0} (n k i : ℕ) (xs : List A)
    → get_elem? (take n (drop k xs)) i ≡ (if ltb i n then get_elem? xs (k + i) else none)
get_elem?-window zero zero i xs = ground arith
get_elem?-window (suc n) zero i [] = ground arith
get_elem?-window (suc n) zero zero (x ∷ xs) = ground arith
get_elem?-window (suc n) zero (suc i) (x ∷ xs) = ground (arith, get_elem?-window n zero i xs)
get_elem?-window zero (suc k) i xs = ground arith
get_elem?-window (suc n) (suc k) i [] = ground arith
get_elem?-window (suc n) (suc k) i (x ∷ xs) = ground (arith, get_elem?-window (suc n) k i xs)

abbrev pub start_of : Spec → ℕ
start_of spec = elim spec.start [ pos a ↦ a | negsuc a ↦ 0 ]

-- What the range selects: as many bytes as `ContentLength` announces, the i-th of them the byte at
-- `start + i`.
abbrev pub Selects : {A : Type 0} → Spec → List A → Option (List A) → Type 0
Selects spec xs none = ⊥
Selects spec xs (some out) =
    (content_length spec ≡ pos (length out))
    × ((i : ℕ)
        → get_elem? out i ≡ (if ltb i (length out) then get_elem? xs (start_of spec + i) else none))

slice_part :
    {A : Type 0} (a b : ℕ) (xs : List A)
    → a ≤ b
    → b < length xs
    → length xs < two_63
    → slice (partial_spec a b (length xs)) xs ≡ some (take (b + 1 - a) (drop a xs))
unfolding slice
slice_part a b xs h k small = ground (arith, int64_sub-pos (length xs) 1, int64_add-pos b 1)

get_elem?-whole :
    {A : Type 0} (xs : List A) (i : ℕ)
    → get_elem? xs i ≡ (if ltb i (length xs) then get_elem? xs (0 + i) else none)
get_elem?-whole [] i = ground arith
get_elem?-whole (x ∷ xs) zero = ground arith
get_elem?-whole (x ∷ xs) (suc i) = ground (arith, get_elem?-whole xs i)

whole_length : (n : ℕ) → n < two_63 → content_length (full (pos n)) ≡ pos n
unfolding content_length full
whole_length n small =
    ground (arith, int64_sub-pos n 1, int64_sub-pos (n - 1) 0, int64_add-pos (n - 1) 1)

part_length :
    (a b n : ℕ) → a ≤ b → b < n → n < two_63 → content_length (partial_spec a b n) ≡ pos (b + 1 - a)
unfolding content_length
part_length a b n h k small = ground (arith, int64_sub-pos b a, int64_add-pos (b - a) 1)

whole-Selects :
    {A : Type 0} (xs : List A)
    → length xs < two_63
    → Selects (full (pos (length xs))) xs (slice (full (pos (length xs))) xs)
unfolding slice
whole-Selects xs small = unfold full in (whole_length (length xs) small, get_elem?-whole xs)

part-Selects :
    {A : Type 0} (a b : ℕ) (xs : List A)
    → a ≤ b
    → b < length xs
    → length xs < two_63
    → Selects (partial_spec a b (length xs)) xs (slice (partial_spec a b (length xs)) xs)
part-Selects a b xs h k small =
    let len : length (take (b + 1 - a) (drop a xs)) ≡ b + 1 - a =
      omega (arith, length-take (b + 1 - a) (drop a xs), length-drop a xs) in
    rw (slice_part a b xs h k small, len)
      (part_length a b (length xs) h k small, λ i. get_elem?-window (b + 1 - a) a i xs)

-- A range that `Parse` accepts for an object of fewer than 2^63 bytes selects from the object's
-- bytes, with no panic, as many bytes as `ContentLength` says, in place from `Start`.
pub slice-Selects :
    {A : Type 0} (header : Text) (xs : List A) (spec : Spec)
    → length xs < two_63
    → parse header (pos (length xs)) ≡ ok spec
    → Selects spec xs (slice spec xs)
slice-Selects header xs spec small h = go (parse-IsRange header (pos (length xs)) spec h)
  where
    go : (n : ℕ) × (pos (length xs) ≡ pos n) × IsRange n spec → Selects spec xs (slice spec xs)
    go (n, e, whole w) =
        let q : spec ≡ full (pos (length xs)) = ground arith in rw q (whole-Selects xs small)
    go (n, e, part a b w h k) =
        let q : spec ≡ partial_spec a b (length xs) = ground arith in
        rw q (part-Selects a b xs h (ground arith) small)
