-- ===== src/ByteRange/Examples.antt =====
-- Headers and the ranges that they select.
use filpe.Prelude.{ℕ, ◌≡◌, refl, List, [], ◌∷◌, ◌++◌, arith}
use filpe.Prelude.Results.{ok, err}
use filpe.Prelude.Int.{pos}
use filpe.Prelude.Texts.{codes, trim_space}
use filpe.Prelude.Decimal.{decimal, parse_int}
use filpe.ByteRange.{
  parse, parse_bounds, slice, unit_prefix, unsupported_range_set, split_bounds, suffix_bounds,
  parse_non_negative,
}
use filpe.ByteRange.Bounds.{IsRange, partial_spec, parse-IsRange, slice-Selects, Selects}
use filpe.ByteRange.RoundTrip.{parse_forms}

middle_parse : parse (codes " Bytes=2-3 ") (pos 5) ≡ ok (partial_spec 2 3 5)
unfolding parse trim_space parse_bounds split_bounds suffix_bounds parse_non_negative parse_int
middle_parse = refl

two_ranges : parse (codes "bytes=0-1,3-4") (pos 5) ≡ err unsupported_range_set
unfolding parse trim_space parse_bounds
two_ranges = refl

parse-IsRange_example : (n : ℕ) × (pos 5 ≡ pos n) × IsRange n (partial_spec 2 3 5)
parse-IsRange_example =
    parse-IsRange (codes " Bytes=2-3 ") (pos 5) (partial_spec 2 3 5) middle_parse

abbrev letters : List ℕ
letters = codes "abcde"

slice-Selects_example : Selects (partial_spec 2 3 5) letters (slice (partial_spec 2 3 5) letters)
slice-Selects_example =
    slice-Selects (codes " Bytes=2-3 ") letters (partial_spec 2 3 5) (omega arith) middle_parse

parse_forms_example :
    (parse (unit_prefix ++ (decimal 2 ++ b'-' ∷ decimal 9)) (pos 5) ≡ ok (partial_spec 2 4 5))
    × (parse (unit_prefix ++ (decimal 2 ++ b'-' ∷ [])) (pos 5) ≡ ok (partial_spec 2 4 5))
    × (parse (unit_prefix ++ (b'-' ∷ decimal 2)) (pos 5) ≡ ok (partial_spec 3 4 5))
parse_forms_example =
    parse_forms 2 9 2 5 (omega arith) (omega arith) (omega arith) (omega arith) (omega arith)
