-- ===== src/Prelude/Classes.antt =====
-- Equality tests as instances.
use Prim.Native.Nat.{ℕ}
use mathlib.Core.Path.{◌≡◌, refl}
use mathlib.Core.Logic.{◌↔◌}
use mathlib.Core.Bool.{Bool, true, false, ◌&&◌}
use mathlib.Core.List.{List, [], ◌∷◌}
use native.Mathlib.Omega.{arith}
use filpe.Prelude.Tests.{nat_beq, nat_beq_iff}

-- A Boolean test that decides whether two values are the same.
pub record Equality {ℓ} (T : Type ℓ) : Type ℓ where
  pub test : T → T → Bool
  pub test_iff : (x y : T) → (test x y ≡ true) ↔ (x ≡ y)

infix 50 ◌==◌
abbrev pub ◌==◌ {ℓ} : {T : Type ℓ} ⦃e : Equality T⦄ → T → T → Bool
◌==◌ ⦃e⦄ x y = e.test x y

pub ==_iff {ℓ} : {A : Type ℓ} ⦃e : Equality A⦄ (a b : A) → ((a == b) ≡ true) ↔ (a ≡ b)
==_iff ⦃e⦄ a b = e.test_iff a b

pub ==-refl {ℓ} : {A : Type ℓ} ⦃e : Equality A⦄ (a : A) → (a == a) ≡ true
==-refl ⦃e⦄ a = (e.test_iff a a).1 refl

instance abbrev pub number_equality : Equality ℕ
number_equality = record { test = nat_beq; test_iff = nat_beq_iff }

module _ {ℓ} {A : Type ℓ} ⦃e : Equality A⦄ where
  abbrev pub list_beq : List A → List A → Bool
  list_beq [] [] = true
  list_beq [] (y ∷ ys) = false
  list_beq (x ∷ xs) [] = false
  list_beq (x ∷ xs) (y ∷ ys) = x == y && list_beq xs ys

  pub list_beq_iff : (xs ys : List A) → (list_beq xs ys ≡ true) ↔ (xs ≡ ys)
  list_beq_iff [] [] = (λ h. refl, λ h. refl)
  list_beq_iff [] (y ∷ ys) = (λ h. cc, λ h. cc)
  list_beq_iff (x ∷ xs) [] = (λ h. cc, λ h. cc)
  list_beq_iff (x ∷ xs) (y ∷ ys) = ground (arith, e.test_iff x y, list_beq_iff xs ys)

instance abbrev pub list_equality {ℓ} : {A : Type ℓ} ⦃e : Equality A⦄ → Equality (List A)
list_equality = record { test = list_beq; test_iff = list_beq_iff }

module _ {A B : Type 0} ⦃e : Equality A⦄ ⦃f : Equality B⦄ where
  abbrev pub pair_beq : A × B → A × B → Bool
  pair_beq (a, b) (c, d) = e.test a c && f.test b d

  pub pair_beq_iff : (x y : A × B) → (pair_beq x y ≡ true) ↔ (x ≡ y)
  pair_beq_iff (a, b) (c, d) = ground (arith, e.test_iff a c, f.test_iff b d)

instance abbrev pub pair_equality :
    {A B : Type 0} ⦃e : Equality A⦄ ⦃f : Equality B⦄ → Equality (A × B)
pair_equality = record { test = pair_beq; test_iff = pair_beq_iff }
