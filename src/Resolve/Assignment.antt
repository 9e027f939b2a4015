-- ===== src/Resolve/Assignment.antt =====
-- resolve/assignment.rs: what the resolver has decided and derived, in order.
use elba.Prelude.{ℕ, Bool, Option, none, some}
use elba.Semver.{Semver}

pub data AssignmentType (V C : Type 0) : Type 0 where
  decision : (version : V) → AssignmentType V C
  derivation : (constraint : C) (cause : ℕ) (positive : Bool) → AssignmentType V C

pub record Assignment (P V C : Type 0) : Type 0 where
  pub step : ℕ
  pub level : ℕ
  pub ty : AssignmentType V C
  pub pkg : P

module _ {V C : Type 0} where
  unfoldable pub cause_of : AssignmentType V C → Option ℕ
  cause_of (decision v) = none
  cause_of (derivation c cause positive) = some cause

  unfoldable pub constraint_of : Semver V C → AssignmentType V C → C
  constraint_of sv (decision v) = sv.of_version v
  constraint_of sv (derivation c cause positive) = c

module _ {P V C : Type 0} where
  abbrev pub cause : Assignment P V C → Option ℕ
  cause a = cause_of a.ty

  abbrev pub constraint : Semver V C → Assignment P V C → C
  constraint sv a = constraint_of sv a.ty
