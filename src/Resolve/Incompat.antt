-- ===== src/Resolve/Incompat.antt =====
-- resolve/incompat.rs: sets of terms that no solution meets all of.
use elba.Prelude.{ℕ, Bool, true, false, Option, none, some, [], Eq}
use elba.Prelude.IndexMap.{IndexMap, insert}
use elba.Semver.{Semver}

pub data IncompatibilityCause : Type 0 where
  dependency root unavailable : IncompatibilityCause
  derived_from : (left right : ℕ) → IncompatibilityCause

abbrev pub is_dependency : IncompatibilityCause → Bool
is_dependency dependency = true
is_dependency _ = false

abbrev pub is_root : IncompatibilityCause → Bool
is_root root = true
is_root _ = false

pub record Incompatibility (P C : Type 0) : Type 0 where
  pub deps : IndexMap P C
  pub cause : IncompatibilityCause

pub data IncompatMatch (P : Type 0) : Type 0 where
  satisfied : IncompatMatch P
  almost : P → IncompatMatch P
  contradicted : IncompatMatch P

-- `Summary` of package/mod.rs.
pub record Summary (P V : Type 0) : Type 0 where
  pub id : P
  pub version : V

-- `indexmap!` inserts its entries in turn.
unfoldable pub from_dep :
    {P V C : Type 0} ⦃e : Eq P⦄ (sv : Semver V C) → Summary P V → P × C → Incompatibility P C
from_dep sv a (pkg, con) = record {
  deps = insert pkg con (insert a.id (sv.of_version a.version) []);
  cause = dependency;
}

abbrev pub derived_cause : IncompatibilityCause → Option (ℕ × ℕ)
derived_cause (derived_from l r) = some (l, r)
derived_cause _ = none

abbrev pub derived : {P C : Type 0} → Incompatibility P C → Option (ℕ × ℕ)
derived i = derived_cause i.cause
