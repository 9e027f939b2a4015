-- ===== src/Prelude/Keys.antt =====
-- `==` of the program's types: an equivalence, and not always the identity of values, since two
-- package names that differ in case or in `_` and `-` are equal.
use Prim.Native.Nat.{ℕ}
use mathlib.Core.Path.{◌≡◌}
use mathlib.Core.Bool.{Bool, true}
use native.Mathlib.Omega.{arith}
use elba.Prelude.Tests.{eqb}

pub record Eq {ℓ} (A : Type ℓ) : Type ℓ where
  pub beq : A → A → Bool
  pub beq_refl : (a : A) → beq a a ≡ true
  -- Symmetry and transitivity in one law.
  pub beq_cong : (a b c : A) → beq a b ≡ true → beq a c ≡ beq b c

infix 50 ◌==◌
abbrev pub ◌==◌ {ℓ} : {A : Type ℓ} ⦃e : Eq A⦄ → A → A → Bool
◌==◌ ⦃e⦄ = e.beq

module _ {ℓ} {A : Type ℓ} ⦃e : Eq A⦄ where
  pub beq_sym : (a b : A) → e.beq a b ≡ true → e.beq b a ≡ true
  beq_sym a b h = ground (arith, e.beq_cong a b a h, e.beq_refl a)

  pub beq_comm : (a b : A) → e.beq a b ≡ e.beq b a
  beq_comm a b = ground (arith, beq_sym a b, beq_sym b a)

pub eqb_refl : (a : ℕ) → eqb a a ≡ true
eqb_refl a = ground arith

pub eqb_cong : (a b c : ℕ) → eqb a b ≡ true → eqb a c ≡ eqb b c
eqb_cong a b c h = ground arith

instance abbrev pub nat_eq : Eq ℕ
nat_eq = record { beq = eqb; beq_refl = eqb_refl; beq_cong = eqb_cong }
