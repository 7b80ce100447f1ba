-- ===== src/Engine/Layouts/Paths.antt =====
-- Short directories, and what filepath.Join makes of them (internal/engine/backend.go).
use filpe.Prelude.{
  ℕ, ◌≡◌, ◌≢◌, refl, ap, ◌∙◌, sym, true, false, [], ◌∷◌, arith, nat_beq, Bool-cases, inl, inr,
  list_equality, number_equality, if◌then◌else◌,
}
use filpe.Prelude.Texts.{
  Text, lower, trim_space_nil, is_space, is_empty, trim_space, trim_space-one, trim_space-two,
}
use filpe.Engine.Layouts.{make_shard_dir, path_of, segments, enter, enter_all}

path_of-one :
    (y : ℕ)
    → path_of (y ∷ [])
      ≡ (if nat_beq y b'/' then [] else if nat_beq y b'.' then [] else (y ∷ []) ∷ [])
unfolding path_of segments enter enter_all
path_of-one y = ground arith

path_of-blank_first :
    (x y : ℕ)
    → is_space x ≡ true
    → path_of (x ∷ y ∷ []) ≡ (if nat_beq y b'/' then (x ∷ []) ∷ [] else (x ∷ y ∷ []) ∷ [])
unfolding path_of segments enter enter_all
path_of-blank_first x y blank = ground arith

path_of-blank_last :
    (x y : ℕ)
    → is_space y ≡ true
    → path_of (x ∷ y ∷ []) ≡ (if nat_beq x b'/' then (y ∷ []) ∷ [] else (x ∷ y ∷ []) ∷ [])
unfolding path_of segments enter enter_all
path_of-blank_last x y blank = ground arith

path_of-blank_first_ne : (x y : ℕ) → is_space x ≡ true → path_of (y ∷ []) ≢ path_of (x ∷ y ∷ [])
path_of-blank_first_ne x y blank e = ground (arith, path_of-one y, path_of-blank_first x y blank, e)

path_of-blank_last_ne : (x y : ℕ) → is_space y ≡ true → path_of (x ∷ []) ≢ path_of (x ∷ y ∷ [])
path_of-blank_last_ne x y blank e = ground (arith, path_of-one x, path_of-blank_last x y blank, e)

path_of-trim_two :
    (x y : ℕ)
    → trim_space (x ∷ y ∷ []) ≢ x ∷ y ∷ []
    → is_empty (trim_space (x ∷ y ∷ [])) ≡ false
    → path_of (trim_space (x ∷ y ∷ [])) ≢ path_of (x ∷ y ∷ [])
path_of-trim_two x y ne there e = elim (Bool-cases (is_space x)) [
  | inl bx ↦ elim (Bool-cases (is_space y)) [
    | inl by ↦
        let t : trim_space (x ∷ y ∷ []) ≡ [] = trim_space-two x y ∙ (rw (bx, by) refl) in
        absurd (ground arith)
    | inr sy ↦
        let t : trim_space (x ∷ y ∷ []) ≡ y ∷ [] = trim_space-two x y ∙ (rw (bx, sy) refl) in
        path_of-blank_first_ne x y bx (ap path_of (sym t) ∙ e)
  ]
  | inr sx ↦ elim (Bool-cases (is_space y)) [
    | inl by ↦
        let t : trim_space (x ∷ y ∷ []) ≡ x ∷ [] = trim_space-two x y ∙ (rw (sx, by) refl) in
        path_of-blank_last_ne x y by (ap path_of (sym t) ∙ e)
    | inr sy ↦ ne (trim_space-two x y ∙ (rw (sx, sy) refl))
  ]
]

path_of-trim_one :
    (x : ℕ)
    → trim_space (x ∷ []) ≢ x ∷ []
    → is_empty (trim_space (x ∷ [])) ≡ false
    → path_of (trim_space (x ∷ [])) ≢ path_of (x ∷ [])
path_of-trim_one x ne there e = elim (Bool-cases (is_space x)) [
  | inl bx ↦
      let t : trim_space (x ∷ []) ≡ [] = trim_space-one x ∙ (rw bx refl) in absurd (ground arith)
  | inr sx ↦ ne (trim_space-one x ∙ (rw sx refl))
]

-- A directory of a key that TrimSpace changes, but not to nothing, is another one then.
pub path_of-trim :
    (key : Text)
    → trim_space (make_shard_dir key) ≢ make_shard_dir key
    → is_empty (trim_space (make_shard_dir key)) ≡ false
    → path_of (trim_space (make_shard_dir key)) ≢ path_of (make_shard_dir key)
unfolding make_shard_dir
path_of-trim [] ne there = absurd (ground (arith, trim_space_nil))
path_of-trim (x ∷ []) ne there = path_of-trim_one (lower x) ne there
path_of-trim (x ∷ y ∷ key) ne there = path_of-trim_two (lower x) (lower y) ne there
