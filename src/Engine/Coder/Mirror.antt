-- ===== src/Engine/Coder/Mirror.antt =====
-- A code of one data shard and one parity shard, which is a copy of it.
use filpe.Prelude.{
  ℕ, ◌<◌, ◌≤◌, ◌≡◌, refl, sym, ◌∙◌, ap, subst, List, [], ◌∷◌, Option, none, some, length, take,
  arith,
}
use filpe.Engine.Coder.{Bytes, Missing, no_shards, kept, lost, AllSized, ReedSolomon}

abbrev copy_parity : List Bytes → Option (List Bytes)
copy_parity [] = none
copy_parity (x ∷ []) = none
copy_parity (x ∷ y ∷ []) = some (x ∷ x ∷ [])
copy_parity (x ∷ y ∷ z ∷ more) = none

abbrev whichever : Bytes → Bytes → List Bytes
whichever [] y = y ∷ y ∷ []
whichever (b ∷ x) y = (b ∷ x) ∷ (b ∷ x) ∷ []

abbrev copy_back : List Bytes → Option (List Bytes)
copy_back [] = none
copy_back (x ∷ []) = none
copy_back (x ∷ y ∷ []) = some (whichever x y)
copy_back (x ∷ y ∷ z ∷ more) = none

pub copy_total :
    (size : ℕ) (shards : List Bytes)
    → 0 < size
    → length shards ≡ 2
    → AllSized size shards
    → (out : List Bytes) × (copy_parity shards ≡ some out)
copy_total size [] p n h = absurd (omega arith)
copy_total size (x ∷ []) p n h = absurd (omega arith)
copy_total size (x ∷ y ∷ []) p n h = (x ∷ x ∷ [], refl)
copy_total size (x ∷ y ∷ z ∷ more) p n h = absurd (omega arith)

pub copy_keeps :
    (size : ℕ) (shards out : List Bytes)
    → copy_parity shards ≡ some out
    → AllSized size shards
    → (take 1 out ≡ take 1 shards) × (length out ≡ length shards) × AllSized size out
copy_keeps size [] out e h = absurd (ground arith)
copy_keeps size (x ∷ []) out e h = absurd (ground arith)
copy_keeps size (x ∷ y ∷ []) out e h =
    let same : x ∷ x ∷ [] ≡ out = ground arith in
    subst (λ o. (take 1 o ≡ x ∷ []) × (length o ≡ 2) × AllSized size o) same
      (refl, refl, (h.0, (h.0, tt)))
copy_keeps size (x ∷ y ∷ z ∷ more) out e h = absurd (ground arith)

whichever_same : (x : Bytes) → whichever x x ≡ x ∷ x ∷ []
whichever_same [] = refl
whichever_same (b ∷ x) = refl

whichever_lost : (x : Bytes) → whichever x [] ≡ x ∷ x ∷ []
whichever_lost [] = refl
whichever_lost (b ∷ x) = refl

copy_back-Missing :
    (n : ℕ) (x y : Bytes) (left : List Bytes)
    → y ≡ x
    → Missing n (x ∷ y ∷ []) left
    → n ≤ 1
    → copy_back left ≡ some (x ∷ x ∷ [])
copy_back-Missing n x y _ e (kept _ _ _ _ (kept _ _ _ _ no_shards)) few =
    ap (λ z. some (whichever x z)) e ∙ ap some (whichever_same x)
copy_back-Missing n x y _ e (kept _ _ _ _ (lost _ _ _ _ no_shards)) few = ap some (whichever_lost x)
copy_back-Missing n x y _ e (lost _ _ _ _ (kept _ _ _ _ no_shards)) few =
    ap (λ z. some (z ∷ z ∷ [])) e
copy_back-Missing n x y _ e (lost _ _ _ _ (lost _ _ _ _ no_shards)) few = absurd (omega arith)

pub copy_rebuilds :
    (n : ℕ) (shards out left : List Bytes)
    → copy_parity shards ≡ some out
    → Missing n out left
    → n ≤ 1
    → copy_back left ≡ some out
copy_rebuilds n [] out left e gone few = absurd (ground arith)
copy_rebuilds n (x ∷ []) out left e gone few = absurd (ground arith)
copy_rebuilds n (x ∷ y ∷ []) out left e gone few =
    let same : x ∷ x ∷ [] ≡ out = ground arith in
    let gone2 = subst (λ o. Missing n o left) (sym same) gone in
    copy_back-Missing n x x left refl gone2 few ∙ ap some same
copy_rebuilds n (x ∷ y ∷ z ∷ more) out left e gone few = absurd (ground arith)

abbrev pub mirror : ReedSolomon 1 1
mirror = record {
  encode_shards = copy_parity;
  reconstruct = copy_back;
  encode-total = copy_total;
  encode-keeps = copy_keeps;
  reconstruct-missing = copy_rebuilds;
}
