-- ===== src/Resolve/Sound.antt =====
-- What incompatibilities and derivations mean: statements about an assignment of a version to every
-- package, with constraints read as sets of versions.
pub mod Terms
pub mod Propagate
pub mod Resolvent
pub mod Shared
use elba.Prelude.{Bool, true, List, ◌≡◌, Option, some, Eq, ◌==◌, All}
use elba.Prelude.IndexMap.{IndexMap, get}
use elba.Semver.{Semver, SetSemantics}
use elba.Resolve.State.{Resolver}

-- One version for each package, the same for equal packages.
pub record Selection (P Point : Type 0) ⦃e : Eq P⦄ : Type 0 where
  pub chosen : P → Point
  pub respects : (p q : P) → (p == q) ≡ true → chosen p ≡ chosen q

module _ {P V C Point : Type 0} ⦃e : Eq P⦄ {sv : Semver V C} (sem : SetSemantics sv Point) where
  abbrev pub Meets : Selection P Point → P → C → Type 0
  Meets σ p c = sem.mem c (σ.chosen p) ≡ true

  -- A selection violates an incompatibility if it meets all of its terms.
  abbrev pub Violates : Selection P Point → IndexMap P C → Type 0
  Violates σ deps = All (λ (p, c). Meets σ p c) deps

module _ {P V C R Point : Type 0} ⦃e : Eq P⦄ {sv : Semver V C} (sem : SetSemantics sv Point) where
  -- A selection is consistent with the derivations if it meets each of them.
  abbrev pub Consistent : Selection P Point → Resolver P V C R → Type 0
  Consistent σ s =
      (p : P) (positive : Bool) (c : C) → get p s.derivations ≡ some (positive, c) → Meets sem σ p c
