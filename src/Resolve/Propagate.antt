-- ===== src/Resolve/Propagate.antt =====
-- resolve/mod.rs, `propagate_incompat`: one incompatibility against the derivations.
use elba.Prelude.{
  ℕ, suc, Bool, true, false, ◌&&◌, ◌||◌, Option, none, some, [], ◌∷◌, Eq, eqb, get_elem?,
}
use elba.Prelude.IndexMap.{IndexMap, contains_key}
use elba.Prelude.Outcome.{M, unwrap, ask, modify, ◌>>=◌, ◌>>◌, pure}
use elba.Semver.{Semver, is_subset, is_equal, is_disjoint}
use elba.Resolve.Incompat.{
  IncompatibilityCause, IncompatMatch, satisfied, almost, contradicted, is_dependency, is_root,
}
use elba.Resolve.Satisfier.{relation}
use elba.Resolve.State.{Resolver, derivation}

-- The variable `unsatis`: the one term that is not yet satisfied.
pub record Unsatisfied (P C : Type 0) : Type 0 where
  pub pkg : P
  pub con : C
  pub positive : Bool

-- The polarity of a derivation from the term at place `ix`.
abbrev pub positive_at : IncompatibilityCause → ℕ → Bool
positive_at cause ix = (eqb ix 1 && is_dependency cause) || is_root cause

module _ {P V C R : Type 0} ⦃e : Eq P⦄ (sv : Semver V C) where
  abbrev pub is_contradicted : Resolver P V C R → P → C → Bool
  is_contradicted s pkg con =
      is_disjoint (relation sv s pkg con) || (sv.is_empty con && contains_key pkg s.derivations)

  abbrev pub is_satisfied : Resolver P V C R → P → C → Bool
  is_satisfied s pkg con = is_subset (relation sv s pkg con) || is_equal (relation sv s pkg con)

  -- The `for` loop from place `ix`; `none` is its early return of `Contradicted`.
  unfoldable pub scan :
      Resolver P V C R
      → IncompatibilityCause
      → ℕ
      → IndexMap P C
      → Option (Unsatisfied P C)
      → Option (Option (Unsatisfied P C))
  scan s cause ix [] unsatis = some unsatis
  scan s cause ix ((pkg, con) ∷ deps) unsatis =
      let found : Unsatisfied P C = record {
        pkg = pkg;
        con = con;
        positive = positive_at cause ix;
      } in
      elim (is_contradicted s pkg con) [
        | true ↦ none
        | false ↦ elim (is_satisfied s pkg con) [
          | true ↦ scan s cause (suc ix) deps unsatis
          | false ↦ elim unsatis [ none ↦ scan s cause (suc ix) deps (some found) | some _ ↦ none ]
        ]
      ]

  abbrev pub conclude :
      ℕ → Option (Option (Unsatisfied P C)) → M (Resolver P V C R) (IncompatMatch P)
  conclude icix none = pure contradicted
  conclude icix (some none) = pure satisfied
  conclude icix (some (some u)) = do
    modify (derivation sv u.pkg (sv.complement u.con) icix u.positive)
    pure (almost u.pkg)

  unfoldable pub propagate_incompat : ℕ → M (Resolver P V C R) (IncompatMatch P)
  propagate_incompat icix = do
    s ← ask (λ s. s)
    inc ← unwrap (get_elem? s.incompats icix)
    conclude icix (scan s inc.cause 0 inc.deps none)
