-- ===== src/Common/Equality.antt =====
-- Types with a test of equality, and the test on strings.
use Prim.Native.Nat.{ℕ}
use mathlib.Core.Path.{◌≡◌, refl}
use mathlib.Core.Logic.{◌↔◌}
use mathlib.Core.Bool.{Bool, true, false, ◌&&◌}
use mathlib.Core.List.{List, [], ◌∷◌}
use native.Mathlib.Omega.{arith}
use code_quest.Common.Tests.{nat_beq, nat_beq_iff}

pub record Eq {ℓ} (A : Type ℓ) : Type ℓ where
  pub is_equal : (x y : A) → Bool
  pub is_equal_iff : (x y : A) → (is_equal x y ≡ true) ↔ (x ≡ y)

module _ {ℓ} {A : Type ℓ} ⦃e : Eq A⦄ where
  infix 50 ◌==◌
  abbrev pub ◌==◌ : (x y : A) → Bool
  ◌==◌ x y = e.is_equal x y

instance abbrev pub nat_eq : Eq ℕ
nat_eq = record { is_equal = nat_beq; is_equal_iff = nat_beq_iff }

-- a JavaScript string: its code units
abbrev pub Str : Type 0
Str = List ℕ

abbrev pub str_beq : Str → Str → Bool
str_beq [] [] = true
str_beq [] (_ ∷ _) = false
str_beq (_ ∷ _) [] = false
str_beq (a ∷ s) (b ∷ t) = nat_beq a b && str_beq s t

pub str_beq_iff : (s t : Str) → (str_beq s t ≡ true) ↔ (s ≡ t)
str_beq_iff [] [] = (λ _. refl, λ _. refl)
str_beq_iff [] (b ∷ t) = ground arith
str_beq_iff (a ∷ s) [] = ground arith
str_beq_iff (a ∷ s) (b ∷ t) = ground (arith, str_beq_iff s t)

instance abbrev pub str_eq : Eq Str
str_eq = record { is_equal = str_beq; is_equal_iff = str_beq_iff }

pub ==_refl {ℓ} : {A : Type ℓ} ⦃e : Eq A⦄ (a : A) → (a == a) ≡ true
==_refl ⦃e⦄ a = (e.is_equal_iff a a).1 refl
