-- ===== src/Prelude/Texts.antt =====
-- Go strings as lists of code points (the strings are taken to be valid UTF-8, on which
-- equality, order, prefixes and concatenation by bytes and by code points agree).
use Prim.Native.Char.{code}
use Prim.Native.String.{String}
use filpe.Prelude.{
  inl, inr, ap, ◌∙◌, Bool-cases, ◌++◌, ℕ, ◌+◌, ◌≡◌, refl, Bool, true, false, ◌&&◌, ◌||◌, List, [],
  ◌∷◌, arith, if◌then◌else◌, ltb, leb, nat_beq,
}

abbrev pub Text : Type 0
Text = List ℕ

abbrev pub codes : String → Text
codes String.[] = []
codes (String.◌∷◌ letter rest) = code letter ∷ codes rest

-- unicode.IsSpace
abbrev pub is_space : ℕ → Bool
is_space c =
    (leb 9 c && leb c 13)
    || nat_beq c 32
    || nat_beq c 0x85
    || nat_beq c 0xa0
    || nat_beq c 0x1680
    || (leb 0x2000 c && leb c 0x200a)
    || nat_beq c 0x2028
    || nat_beq c 0x2029
    || nat_beq c 0x202f
    || nat_beq c 0x205f
    || nat_beq c 0x3000

unfoldable pub trim_left : Text → Text
trim_left [] = []
trim_left (c ∷ s) = if is_space c then trim_left s else c ∷ s

-- A character before a text that is trimmed already.
keep_right : ℕ → Text → Text
keep_right c [] = if is_space c then [] else c ∷ []
keep_right c (d ∷ t) = c ∷ d ∷ t

unfoldable pub trim_right : Text → Text
unfolding keep_right
trim_right [] = []
trim_right (c ∷ s) = keep_right c (trim_right s)

-- strings.TrimSpace
unfoldable pub trim_space : Text → Text
unfolding trim_left trim_right
trim_space s = trim_right (trim_left s)

abbrev pub is_empty {ℓ} : {A : Type ℓ} → List A → Bool
is_empty [] = true
is_empty (x ∷ xs) = false

-- strings.HasPrefix
abbrev pub has_prefix : Text → Text → Bool
has_prefix s [] = true
has_prefix [] (p ∷ ps) = false
has_prefix (c ∷ s) (p ∷ ps) = nat_beq c p && has_prefix s ps

-- `left < right` on strings
abbrev pub text_lt : Text → Text → Bool
text_lt [] [] = false
text_lt [] (y ∷ ys) = true
text_lt (x ∷ xs) [] = false
text_lt (x ∷ xs) (y ∷ ys) = ltb x y || (nat_beq x y && text_lt xs ys)

abbrev pub lower : ℕ → ℕ
lower c = if leb b'A' c && leb c b'Z' then c + 32 else c

pub trim_space_nil : trim_space [] ≡ []
unfolding trim_space
trim_space_nil = refl

-- Texts of one or two characters.
pub trim_space-one : (x : ℕ) → trim_space (x ∷ []) ≡ (if is_space x then [] else x ∷ [])
unfolding trim_space trim_left trim_right keep_right
trim_space-one x = ground arith

pub trim_space-two :
    (x y : ℕ)
    → trim_space (x ∷ y ∷ []) ≡ (
        if is_space x
        then if is_space y then [] else y ∷ []
        else if is_space y
        then x ∷ []
        else x ∷ y ∷ [])
unfolding trim_space trim_left trim_right keep_right
trim_space-two x y = ground arith

pub text_lt_irrefl : (s : Text) → text_lt s s ≡ false
text_lt_irrefl [] = refl
text_lt_irrefl (c ∷ s) = ground (arith, text_lt_irrefl s)

pub text_lt_trans : (a b c : Text) → text_lt a b ≡ true → text_lt b c ≡ true → text_lt a c ≡ true
text_lt_trans [] [] c h k = ground arith
text_lt_trans [] (y ∷ b) [] h k = ground arith
text_lt_trans [] (y ∷ b) (z ∷ c) h k = refl
text_lt_trans (x ∷ a) [] c h k = ground arith
text_lt_trans (x ∷ a) (y ∷ b) [] h k = ground arith
text_lt_trans (x ∷ a) (y ∷ b) (z ∷ c) h k = ground (arith, text_lt_trans a b c)

-- Two texts of which neither is below the other are the same.
pub text_lt_antisym : (a b : Text) → text_lt a b ≡ false → text_lt b a ≡ false → a ≡ b
text_lt_antisym [] [] h k = refl
text_lt_antisym [] (y ∷ b) h k = ground arith
text_lt_antisym (x ∷ a) [] h k = ground arith
text_lt_antisym (x ∷ a) (y ∷ b) h k = ground (arith, text_lt_antisym a b)

trim_right-keep :
    (c : ℕ) (t : Text) → trim_right t ≡ t → trim_right (keep_right c t) ≡ keep_right c t
unfolding trim_right
trim_right-keep c [] e = ground arith
trim_right-keep c (d ∷ t) e = rw (e, keep_right)

trim_right_idem : (s : Text) → trim_right (trim_right s) ≡ trim_right s
unfolding trim_right
trim_right_idem [] = refl
trim_right_idem (c ∷ s) = trim_right-keep c (trim_right s) (trim_right_idem s)

trim_left-keep :
    (c : ℕ) (t : Text) → is_space c ≡ false → trim_left (keep_right c t) ≡ keep_right c t
unfolding trim_left keep_right
trim_left-keep c [] e = ground arith
trim_left-keep c (d ∷ t) e = ground arith

trim_left-trim : (s : Text) → trim_left (trim_right (trim_left s)) ≡ trim_right (trim_left s)
unfolding trim_left
trim_left-trim [] = unfold trim_right in refl
trim_left-trim (c ∷ s) = elim (Bool-cases (is_space c)) [
  | inl blank ↦ rw blank (trim_left-trim s)
  | inr solid ↦ rw solid (unfold trim_right in trim_left-keep c (trim_right s) solid)
]

pub trim_space_idem : (s : Text) → trim_space (trim_space s) ≡ trim_space s
unfolding trim_space
trim_space_idem s = ap trim_right (trim_left-trim s) ∙ trim_right_idem (trim_left s)

-- No white space.
abbrev pub Solid : Text → Type 0
Solid [] = Unit {0}
Solid (c ∷ s) = (is_space c ≡ false) × Solid s

trim_left-Solid : (s : Text) → Solid s → trim_left s ≡ s
unfolding trim_left
trim_left-Solid [] h = refl
trim_left-Solid (c ∷ s) h = rw h.0

trim_right-Solid : (s : Text) → Solid s → trim_right s ≡ s
unfolding trim_right
trim_right-Solid [] h = refl
trim_right-Solid (c ∷ []) h = rw h.0
trim_right-Solid (c ∷ d ∷ s) h = rw (trim_right-Solid (d ∷ s) h.1, trim_right)

pub trim_space-Solid : (s : Text) → Solid s → trim_space s ≡ s
unfolding trim_space
trim_space-Solid s h = rw (trim_left-Solid s h) (trim_right-Solid s h)

pub Solid-append : (s t : Text) → Solid s → Solid t → Solid (s ++ t)
Solid-append [] t h k = k
Solid-append (c ∷ s) t h k = (h.0, Solid-append s t h.1 k)
