-- ===== src/ByteRange.antt =====
-- internal/bytesrange/range.go: HTTP byte ranges against an object's size, and the slice of the
-- object that a range selects.
pub mod Bounds
pub mod RoundTrip
mod Examples
use filpe.Prelude.{
  ℕ, zero, suc, ◌+◌, ◌-◌, ◌≤◌, ◌<◌, min, Bool, true, false, not, ◌&&◌, ◌||◌, Option, none, some,
  List, [], ◌∷◌, ◌++◌, map, if◌then◌else◌, ltb, leb, nat_beq, length, take, drop,
}
use filpe.Prelude.Results.{Result, ok, err, ◌>>=◌, ◌>>◌, reject_if}
use filpe.Prelude.Int.{ℤ, pos, negsuc, ltb_ℤ}
use filpe.Prelude.Words.{int64_add, int64_sub}
use filpe.Prelude.Texts.{Text, codes, trim_space, is_empty, has_prefix, lower}
use filpe.Prelude.Decimal.{parse_int, format_int, decimal}

-- The message that ErrInvalidRange is wrapped with.
pub data RangeError : Type 0 where
  negative_size empty_object unsupported_unit unsupported_range_set missing_separator : RangeError
  unsatisfied_range empty_suffix invalid_number : RangeError

pub record Spec : Type 0 where
  pub start : ℤ
  pub end : ℤ
  pub size : ℤ
  pub partial : Bool

unfoldable pub full : ℤ → Spec
full size = record { start = pos 0; end = int64_sub size (pos 1); size = size; partial = false }

non_negative : Option ℤ → Result RangeError ℕ
non_negative none = err invalid_number
non_negative (some (pos n)) = ok n
non_negative (some (negsuc n)) = err invalid_number

unfoldable pub parse_non_negative : Text → Result RangeError ℕ
unfolding non_negative
parse_non_negative value = non_negative (parse_int (trim_space value))

-- strings.SplitN(value, "-", 2), where the separator is found.
unfoldable pub split_dash : Text → Option (Text × Text)
split_dash [] = none
split_dash (c ∷ s) = elim (split_dash s) [
  | none ↦ if nat_beq c b'-' then some ([], s) else none
  | some (before, after) ↦ if nat_beq c b'-' then some ([], s) else some (c ∷ before, after)
]

-- The bounds of `-n`, the last n bytes. The size is positive.
unfoldable pub suffix_bounds : Text → ℕ → Result RangeError (ℕ × ℕ)
suffix_bounds value size = do
  suffix ← parse_non_negative value
  reject_if (nat_beq suffix 0) empty_suffix
  ok (if leb size suffix then (0, size - 1) else (size - suffix, size - 1))

end_bound : Text → ℕ → Result RangeError ℕ
end_bound [] size = ok (size - 1)
end_bound (c ∷ s) size = parse_non_negative (c ∷ s)

unfoldable pub split_bounds : Text → Text → ℕ → Result RangeError (ℕ × ℕ)
unfolding end_bound
split_bounds [] after size = suffix_bounds after size
split_bounds (c ∷ before) after size = do
  start ← parse_non_negative (c ∷ before)
  end ← end_bound after size
  reject_if (leb size start || ltb end start) unsatisfied_range
  ok (start, min end (size - 1))

unfoldable pub parse_bounds : Text → ℕ → Result RangeError (ℕ × ℕ)
unfolding split_dash
parse_bounds value size = elim (split_dash value) [
  | none ↦ err missing_separator
  | some (before, after) ↦ split_bounds before after size
]

abbrev pub contains : ℕ → Text → Bool
contains c [] = false
contains c (d ∷ s) = nat_beq d c || contains c s

abbrev pub unit_prefix : Text
unit_prefix = codes "bytes="

-- `Parse` once the size is known not to be negative and the header is trimmed.
unfoldable pub parse_header : Text → ℕ → Result RangeError Spec
parse_header header size = if is_empty header then ok (full (pos size)) else do
  reject_if (nat_beq size 0) empty_object
  reject_if (not (has_prefix (map lower header) unit_prefix)) unsupported_unit
  let value = trim_space (drop 6 header)
  reject_if (is_empty value || contains b',' value) unsupported_range_set
  bounds ← parse_bounds value size
  ok (record { start = pos bounds.0; end = pos bounds.1; size = pos size; partial = true })

unfoldable pub parse : Text → ℤ → Result RangeError Spec
unfolding parse_header
parse header (negsuc n) = err negative_size
parse header (pos size) = parse_header (trim_space header) size

unfoldable pub unsatisfied_content_range : ℤ → Text
unsatisfied_content_range size = codes "bytes */" ++ format_int size

unfoldable pub content_length : Spec → ℤ
content_length spec = elim spec.size [
  | pos n ↦ if nat_beq n 0 then pos 0 else int64_add (int64_sub spec.end spec.start) (pos 1)
  | negsuc n ↦ int64_add (int64_sub spec.end spec.start) (pos 1)
]

unfoldable pub content_range : Spec → Text
content_range spec =
    codes "bytes "
    ++ format_int spec.start
    ++ codes "-"
    ++ format_int spec.end
    ++ codes "/"
    ++ format_int spec.size

-- `data[from : to]`; Go panics unless 0 ≤ from ≤ to ≤ cap, which is `none`.
unfoldable pub subslice : {A : Type 0} → List A → ℤ → ℤ → Option (List A)
subslice data_ (pos from) (pos to) =
    if leb from to && leb to (length data_) then some (take (to - from) (drop from data_)) else none
subslice data_ _ _ = none

abbrev min_ℤ : ℤ → ℤ → ℤ
min_ℤ a b = if ltb_ℤ a b then a else b

-- `Slice`; `none` is a panic.
unfoldable pub slice : {A : Type 0} → Spec → List A → Option (List A)
unfolding subslice
slice spec data_ =
    let len : ℤ = pos (length data_) in
    let end = min_ℤ spec.end (int64_sub len (pos 1)) in
    if not spec.partial
    then some data_
    else if ltb_ℤ spec.start len
    then subslice data_ spec.start (int64_add end (pos 1))
    else some []
