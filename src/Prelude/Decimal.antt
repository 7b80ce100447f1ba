-- ===== src/Prelude/Decimal.antt =====
-- Decimal numerals, as strconv and fmt write them and strconv.ParseInt(s, 10, 64) reads them.
use filpe.Prelude.{
  ℕ, zero, suc, ◌+◌, ◌-◌, ◌*◌, ◌/◌, ◌%◌, ◌≤◌, ◌<◌, ◌≡◌, refl, inl, inr, Bool, ◌&&◌, Option, none,
  some, [], ◌∷◌, ◌++◌, arith, if◌then◌else◌, ltb, leb, nat_beq, Bool-cases, All, ◌≢◌,
}
use filpe.Prelude.Int.{ℤ, pos, negsuc}
use filpe.Prelude.Texts.{Text}
use filpe.Prelude.Words.{two_63}

abbrev pub is_digit : ℕ → Bool
is_digit c = leb b'0' c && leb c b'9'

-- The value of a run of digits, after those read so far.
unfoldable pub digits_value : ℕ → Text → Option ℕ
digits_value acc [] = some acc
digits_value acc (c ∷ s) =
    let rest = digits_value (acc * 10 + (c - b'0')) s in if is_digit c then rest else none

unfoldable pub parse_magnitude : Text → Option ℕ
unfolding digits_value
parse_magnitude [] = none
parse_magnitude (c ∷ s) = digits_value 0 (c ∷ s)

in_int64 : Option ℕ → Option ℤ
in_int64 none = none
in_int64 (some n) = if ltb n two_63 then some (pos n) else none

negated : ℕ → ℤ
negated zero = pos 0
negated (suc n) = negsuc n

neg_int64 : Option ℕ → Option ℤ
unfolding negated
neg_int64 none = none
neg_int64 (some n) = if leb n two_63 then some (negated n) else none

-- `none` is ErrSyntax or ErrRange.
unfoldable pub parse_int : Text → Option ℤ
unfolding in_int64 neg_int64 parse_magnitude
parse_int [] = none
parse_int (c ∷ s) =
    if nat_beq c b'-'
    then neg_int64 (parse_magnitude s)
    else if nat_beq c b'+'
    then in_int64 (parse_magnitude s)
    else in_int64 (parse_magnitude (c ∷ s))

decimal_fuel : ℕ → ℕ → Text
decimal_fuel zero n = []
decimal_fuel (suc f) n =
    let rest = decimal_fuel f (n / 10) in
    if ltb n 10 then (b'0' + n) ∷ [] else rest ++ (b'0' + n % 10) ∷ []

-- strconv.FormatInt(n, 10) of a number that is not negative.
unfoldable pub decimal : ℕ → Text
unfolding decimal_fuel
decimal n = decimal_fuel (suc n) n

-- strconv.FormatInt(n, 10)
unfoldable pub format_int : ℤ → Text
unfolding decimal
format_int (pos n) = decimal n
format_int (negsuc n) = b'-' ∷ decimal (n + 1)

digits_value-append :
    (s : Text) (acc n d : ℕ)
    → digits_value acc s ≡ some n
    → d < 10
    → digits_value acc (s ++ (b'0' + d) ∷ []) ≡ some (n * 10 + d)
unfolding digits_value
digits_value-append [] acc n d h k = ground arith
digits_value-append (c ∷ s) acc n d h k =
    ground (arith, digits_value-append s (acc * 10 + (c - b'0')) n d)

decimal_fuel-value : (f n : ℕ) → n < f → digits_value 0 (decimal_fuel f n) ≡ some n
unfolding decimal_fuel
decimal_fuel-value zero n h = absurd (omega arith)
decimal_fuel-value (suc f) n h = elim (Bool-cases (ltb n 10)) [
  | inl small ↦ rw small (unfold digits_value in ground arith)
  | inr large ↦ rw large (
      let ih = decimal_fuel-value f (n / 10) (ground arith) in
      ground (arith, digits_value-append (decimal_fuel f (n / 10)) 0 (n / 10) (n % 10) ih))
]

abbrev pub IsDigit : ℕ → Type 0
IsDigit c = (48 ≤ c) × (c ≤ 57)

append-Digits : (s : Text) (c : ℕ) → All IsDigit s → IsDigit c → All IsDigit (s ++ c ∷ [])
append-Digits [] c h k = (k, tt)
append-Digits (x ∷ s) c h k = (h.0, append-Digits s c h.1 k)

decimal_fuel-digits : (f n : ℕ) → All IsDigit (decimal_fuel f n)
unfolding decimal_fuel
decimal_fuel-digits zero n = tt
decimal_fuel-digits (suc f) n = elim (Bool-cases (ltb n 10)) [
  | inl small ↦ rw small (ground arith)
  | inr large ↦ rw large (
      append-Digits (decimal_fuel f (n / 10)) (48 + n % 10) (decimal_fuel-digits f (n / 10))
        (omega arith))
]

pub decimal-digits : (n : ℕ) → All IsDigit (decimal n)
unfolding decimal
decimal-digits n = decimal_fuel-digits (suc n) n

-- A non-empty run of digits is read as its value.
digits-parse :
    (s : Text) (n : ℕ)
    → All IsDigit s
    → s ≢ []
    → digits_value 0 s ≡ some n
    → n < two_63
    → parse_int s ≡ some (pos n)
digits-parse [] n h ne v k = absurd (ne refl)
digits-parse (c ∷ s) n h ne v k = unfold parse_int in ground arith

append-ne-nil : (s : Text) (c : ℕ) → (s ++ c ∷ []) ≢ []
append-ne-nil [] c h = ground arith
append-ne-nil (x ∷ s) c h = ground arith

pub decimal-ne-nil : (n : ℕ) → decimal n ≢ []
unfolding decimal
decimal-ne-nil n = ground (arith, append-ne-nil (decimal_fuel n (n / 10)) (48 + n % 10))

-- Numerals are read back.
pub parse_int-decimal : (n : ℕ) → n < two_63 → parse_int (decimal n) ≡ some (pos n)
parse_int-decimal n h =
    digits-parse (decimal n) n (decimal-digits n) (decimal-ne-nil n)
      (unfold decimal in decimal_fuel-value (suc n) n (omega arith)) h
