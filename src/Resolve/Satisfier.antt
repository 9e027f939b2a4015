-- ===== src/Resolve/Satisfier.antt =====
-- resolve/mod.rs, `satisfier` and `relation`: what the assignments say of a term.
pub mod First
use elba.Prelude.{Bool, true, false, ◌||◌, Option, none, some, List, [], ◌∷◌, Eq, ◌==◌}
use elba.Prelude.IndexMap.{get}
use elba.Semver.{Semver, Relation, superset, is_subset, is_equal}
use elba.Resolve.Assignment.{Assignment, constraint}
use elba.Resolve.State.{Resolver}

module _ {V C : Type 0} (sv : Semver V C) where
  -- `r == Relation::Subset || r == Relation::Equal`
  abbrev pub within : C → C → Bool
  within c d = is_subset (sv.relation c d) || is_equal (sv.relation c d)

module _ {P V C : Type 0} ⦃e : Eq P⦄ (sv : Semver V C) where
  -- The `for` loop, with the term that the assignments so far add up to.
  unfoldable pub satisfier_from : P → C → C → List (Assignment P V C) → Option (Assignment P V C)
  satisfier_from pkg con assigned_term [] = none
  satisfier_from pkg con assigned_term (a ∷ later) =
      let assigned_term' = sv.intersection assigned_term (constraint sv a) in
      elim (a.pkg == pkg) [
        | false ↦ satisfier_from pkg con assigned_term later
        | true ↦ elim (within sv assigned_term' con) [
          | true ↦ some a
          | false ↦ satisfier_from pkg con assigned_term' later
        ]
      ]

module _ {P V C R : Type 0} ⦃e : Eq P⦄ (sv : Semver V C) where
  unfoldable pub satisfier : Resolver P V C R → P → C → Option (Assignment P V C)
  unfolding satisfier_from
  satisfier s pkg con = satisfier_from sv pkg con sv.any s.assignments

  -- A package of which nothing is known allows all versions.
  unfoldable pub relation : Resolver P V C R → P → C → Relation
  relation s pkg con = elim (get pkg s.derivations) [
    | none ↦ superset
    | some (positive, c) ↦ sv.relation c con
  ]
