-- ===== src/Prelude/Words.antt =====
-- Go's 64-bit signed integers (`int`, `int64`): sums and differences wrap around.
use filpe.Prelude.{ℕ, ◌+◌, ◌-◌, ◌%◌, ◌^◌, ◌≤◌, ◌<◌, ◌≡◌, refl, if◌then◌else◌, ltb, arith}
use filpe.Prelude.Int.{ℤ, pos, negsuc, ◌+ℤ◌, ◌-ℤ◌}

abbrev pub two_63 : ℕ
two_63 = 2 ^ 63

abbrev pub two_64 : ℕ
two_64 = 2 ^ 64

-- The value in [-2^63, 2^63) that differs by a multiple of 2^64.
unfoldable pub wrap64 : ℤ → ℤ
wrap64 (pos n) = let r = n % two_64 in if ltb r two_63 then pos r else negsuc (two_64 - 1 - r)
wrap64 (negsuc n) = let r = n % two_64 in if ltb r two_63 then negsuc r else pos (two_64 - 1 - r)

unfoldable pub int64_add : ℤ → ℤ → ℤ
unfolding wrap64 ◌+ℤ◌
int64_add a b = wrap64 (a +ℤ b)

unfoldable pub int64_sub : ℤ → ℤ → ℤ
unfolding wrap64 ◌-ℤ◌
int64_sub a b = wrap64 (a -ℤ b)

pub wrap64-pos : (n : ℕ) → n < two_63 → wrap64 (pos n) ≡ pos n
unfolding wrap64
wrap64-pos n h = ground arith

pub wrap64-negsuc : (n : ℕ) → n < two_63 → wrap64 (negsuc n) ≡ negsuc n
unfolding wrap64
wrap64-negsuc n h = ground arith

pub int64_add-pos : (a b : ℕ) → a + b < two_63 → int64_add (pos a) (pos b) ≡ pos (a + b)
unfolding int64_add
int64_add-pos a b h = ground arith

pub int64_sub-pos : (a b : ℕ) → b ≤ a → a < two_63 → int64_sub (pos a) (pos b) ≡ pos (a - b)
unfolding int64_sub
int64_sub-pos a b h k = ground arith

overflow : int64_add (pos (two_63 - 1)) (pos 1) ≡ negsuc (two_63 - 1)
unfolding int64_add
overflow = refl
