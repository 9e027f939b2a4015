-- ===== src/Semver.antt =====
-- The crates `semver` and `semver_constraints`, as a parameter: what elba calls of them. elba names
-- four relations of constraints; `other` is any further one.
use elba.Prelude.{◌≡◌, Bool, true, false, not, ◌&&◌}

pub data Relation : Type 0 where
  superset subset equal disjoint other : Relation

abbrev pub is_subset : Relation → Bool
is_subset subset = true
is_subset _ = false

abbrev pub is_equal : Relation → Bool
is_equal equal = true
is_equal _ = false

abbrev pub is_superset : Relation → Bool
is_superset superset = true
is_superset _ = false

abbrev pub is_disjoint : Relation → Bool
is_disjoint disjoint = true
is_disjoint _ = false

pub record Semver (V C : Type 0) : Type 0 where
  pub any : C
  pub empty : C
  pub is_empty : C → Bool
  pub con_eq : C → C → Bool
  pub intersection : C → C → C
  pub difference : C → C → C
  pub complement : C → C
  pub relation : C → C → Relation
  pub of_version : V → C
  pub satisfies : C → V → Bool
  pub is_prerelease : V → Bool

-- A constraint is documented as a set of version ranges, and its operations as those of sets. The
-- points are whatever a range ranges over.
pub record SetSemantics {V C : Type 0} (sv : Semver V C) (Point : Type 0) : Type 0 where
  pub mem : C → Point → Bool
  pub mem-any : (x : Point) → mem sv.any x ≡ true
  pub mem-empty : (x : Point) → mem sv.empty x ≡ false
  pub mem-intersection : (c d : C) (x : Point) → mem (sv.intersection c d) x ≡ (mem c x && mem d x)
  pub mem-difference :
      (c d : C) (x : Point) → mem (sv.difference c d) x ≡ (mem c x && not (mem d x))
  pub mem-complement : (c : C) (x : Point) → mem (sv.complement c) x ≡ not (mem c x)
  pub con_eq_refl : (c : C) → sv.con_eq c c ≡ true
  -- `==` compares the ranges, which are kept in a normal form.
  pub mem-con_eq : (c d : C) (x : Point) → sv.con_eq c d ≡ true → mem c x ≡ mem d x
  pub mem-subset :
      (c d : C) (x : Point) → sv.relation c d ≡ subset → mem c x ≡ true → mem d x ≡ true
  pub mem-equal : (c d : C) (x : Point) → sv.relation c d ≡ equal → mem c x ≡ mem d x
  pub mem-disjoint :
      (c d : C) (x : Point) → sv.relation c d ≡ disjoint → mem c x ≡ true → mem d x ≡ false
