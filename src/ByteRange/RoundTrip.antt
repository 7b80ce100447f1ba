-- ===== src/ByteRange/RoundTrip.antt =====
-- The three forms of a range header, as a client writes them, are read back
-- (internal/bytesrange/range.go).
use filpe.Prelude.{
  ℕ, ◌-◌, ◌≤◌, ◌<◌, min, ◌≡◌, refl, ◌∙◌, ◌≢◌, false, some, [], ◌∷◌, ◌++◌, arith, All,
}
use filpe.Prelude.Results.{ok}
use filpe.Prelude.Int.{pos}
use filpe.Prelude.Words.{two_63}
use filpe.Prelude.Texts.{Text, is_empty, Solid, trim_space-Solid, Solid-append}
use filpe.Prelude.Decimal.{decimal, IsDigit, decimal-digits, decimal-ne-nil, parse_int-decimal}
use filpe.ByteRange.{
  parse_non_negative, split_dash, suffix_bounds, end_bound, split_bounds, parse_bounds,
  parse_header, parse, unit_prefix, contains,
}
use filpe.ByteRange.Bounds.{partial_spec}

digits-Solid : (s : Text) → All IsDigit s → Solid s
digits-Solid [] h = tt
digits-Solid (c ∷ s) h = (ground arith, digits-Solid s h.1)

decimal-Solid : (n : ℕ) → Solid (decimal n)
decimal-Solid n = digits-Solid (decimal n) (decimal-digits n)

parse-decimal : (n : ℕ) → n < two_63 → parse_non_negative (decimal n) ≡ ok n
unfolding parse_non_negative
parse-decimal n h = rw (trim_space-Solid (decimal n) (decimal-Solid n), parse_int-decimal n h)

-- The first dash after digits.
split_digits : (s t : Text) → All IsDigit s → split_dash (s ++ b'-' ∷ t) ≡ some (s, t)
unfolding split_dash
split_digits [] t h = ground arith
split_digits (c ∷ s) t h = rw (split_digits s t h.1) (ground arith)

no_comma : (s t : Text) → All IsDigit s → contains b',' (s ++ t) ≡ contains b',' t
no_comma [] t h = refl
no_comma (c ∷ s) t h = ground (arith, no_comma s t h.1)

-- What `parse_header` does with a set of one range.
header_lem :
    (value : Text) (n a b : ℕ)
    → 0 < n
    → Solid value
    → is_empty value ≡ false
    → contains b',' value ≡ false
    → parse_bounds value n ≡ ok (a, b)
    → parse (unit_prefix ++ value) (pos n) ≡ ok (partial_spec a b n)
unfolding parse
header_lem value n a b h solid full_ single e =
    rw
      (trim_space-Solid (unit_prefix ++ value)
        (Solid-append unit_prefix value (ground arith) solid))
      (unfold parse_header in rw (trim_space-Solid value solid, full_, single, e) (ground arith))

nonempty : (s t : Text) (c : ℕ) → is_empty (s ++ c ∷ t) ≡ false
nonempty [] t c = refl
nonempty (d ∷ s) t c = refl

split_lem :
    (s t : Text) (a b n : ℕ)
    → s ≢ []
    → parse_non_negative s ≡ ok a
    → end_bound t n ≡ ok b
    → a ≤ b
    → a < n
    → split_bounds s t n ≡ ok (a, min b (n - 1))
unfolding split_bounds
split_lem [] t a b n ne p q h k = absurd (ne refl)
split_lem (c ∷ s) t a b n ne p q h k = rw (p, q) (ground arith)

end_lem : (s : Text) (b n : ℕ) → s ≢ [] → parse_non_negative s ≡ ok b → end_bound s n ≡ ok b
unfolding end_bound
end_lem [] b n ne p = absurd (ne refl)
end_lem (c ∷ s) b n ne p = p

bounds_lem :
    (s t : Text) (n a b : ℕ)
    → All IsDigit s
    → split_bounds s t n ≡ ok (a, b)
    → parse_bounds (s ++ b'-' ∷ t) n ≡ ok (a, b)
unfolding parse_bounds
bounds_lem s t n a b h e = rw (split_digits s t h, parse_bounds) e

-- A header of digits, a dash, and digits.
range_lem :
    (s t : Text) (n a b : ℕ)
    → All IsDigit s
    → All IsDigit t
    → 0 < n
    → split_bounds s t n ≡ ok (a, b)
    → parse (unit_prefix ++ (s ++ b'-' ∷ t)) (pos n) ≡ ok (partial_spec a b n)
range_lem s t n a b hs ht h e =
    header_lem (s ++ b'-' ∷ t) n a b h
      (Solid-append s (b'-' ∷ t) (digits-Solid s hs) (refl, digits-Solid t ht)) (nonempty s t b'-')
      (no_comma s (b'-' ∷ t) hs ∙ no_comma_digits t ht) (bounds_lem s t n a b hs e)
  where
    no_comma_digits : (u : Text) → All IsDigit u → contains b',' u ≡ false
    no_comma_digits [] k = refl
    no_comma_digits (c ∷ u) k = ground (arith, no_comma_digits u k.1)

-- A client's `bytes=a-b`, `bytes=a-` and `bytes=-k` for an object of n bytes, where a is at most b
-- and below n, k is not 0, and b and k are below 2^63, are read as the bytes from a to b, cut at the
-- end of the object, as those from a to its end, and as its last k bytes (all, when k is above n).
pub parse_forms :
    (a b k n : ℕ)
    → a ≤ b
    → a < n
    → 0 < k
    → b < two_63
    → k < two_63
    → (parse (unit_prefix ++ (decimal a ++ b'-' ∷ decimal b)) (pos n)
        ≡ ok (partial_spec a (min b (n - 1)) n))
      × (parse (unit_prefix ++ (decimal a ++ b'-' ∷ [])) (pos n) ≡ ok (partial_spec a (n - 1) n))
      × (parse (unit_prefix ++ (b'-' ∷ decimal k)) (pos n) ≡ ok (partial_spec (n - k) (n - 1) n))
parse_forms a b k n h lt pk sb sk = (
  range_lem (decimal a) (decimal b) n a (min b (n - 1)) (decimal-digits a) (decimal-digits b)
      (omega arith)
      (split_lem (decimal a) (decimal b) a b n (decimal-ne-nil a) first
        (end_lem (decimal b) b n (decimal-ne-nil b) (parse-decimal b sb)) h lt),
  range_lem (decimal a) [] n a (n - 1) (decimal-digits a) tt (omega arith) (
      rw (← last) (
        split_lem (decimal a) [] a (n - 1) n (decimal-ne-nil a) first (unfold end_bound in refl)
          (omega arith) lt)),
  range_lem [] (decimal k) n (n - k) (n - 1) tt (decimal-digits k) (omega arith) suffix,
)
  where
    first : parse_non_negative (decimal a) ≡ ok a
    first = parse-decimal a (omega arith)

    last : min (n - 1) (n - 1) ≡ n - 1
    last = omega arith

    suffix : split_bounds [] (decimal k) n ≡ ok (n - k, n - 1)
    suffix = unfold split_bounds suffix_bounds in rw (parse-decimal k sk) (ground arith)
