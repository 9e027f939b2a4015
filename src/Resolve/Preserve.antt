-- ===== src/Resolve/Preserve.antt =====
-- A rule for properties of the resolver's state: what the six primitive changes keep, every method
-- keeps, wherever it stops. Here are the rule and the short methods.
pub mod Conflict
pub mod Choose
pub mod Solve
use elba.Prelude.{
  ℕ, zero, suc, ◌+◌, ◌<◌, Bool, true, false, not, ◌||◌, ◌⊎◌, Option, none, some, List, [], ◌∷◌,
  ◌++◌, ◌≡◌, refl, inl, inr, Eq, ◌==◌, arith, if◌then◌else◌, Bool-cases, Option-cases, reverse,
  length, get_elem?, All, ltb,
}
use elba.Prelude.IndexMap.{IndexMap, get}
use elba.Prelude.IndexSet.{pop}
use elba.Prelude.Outcome.{
  M, Outcome, pure, done, fail, unfinished, panic, and_then, Result, ok, err, Keeps, Keeps-and_then,
}
use elba.Semver.{Semver}
use elba.Retriever.{Retriever}
use elba.Resolve.Assignment.{Assignment, cause}
use elba.Resolve.Incompat.{
  Incompatibility, IncompatibilityCause, Summary, derived_from, IncompatMatch, satisfied, almost,
  contradicted,
}
use elba.Resolve.Backtrack.{Unwound, unwind, rewound, backtrack}
use elba.Resolve.Propagate.{
  Unsatisfied, conclude, scan, propagate_incompat, is_contradicted, is_satisfied, positive_at,
}
use elba.Resolve.Conflict.{
  Search, search_start, compare_satisfier, difference_of, update_difference, search_terms,
  return_to, resolvent, resolve_round, resolve_loop, resolve_conflict, is_failure, new_terms,
}
use elba.Resolve.Choose.{next_package, add_incompats, add_version, choose_pkg_version, conflicts}
use elba.Resolve.Solve.{propagate_ixs, propagate_loop, propagate, decide_loop, decide_all}
use elba.Resolve.State.{Resolver, decision, derivation, index_terms, incompat_ixs, incompatibility}

-- A term of an incompatibility.
abbrev pub HasTerm : {P C : Type 0} → P → C → IndexMap P C → Type 0
HasTerm p c [] = ⊥
HasTerm p c ((q, d) ∷ deps) = ((q ≡ p) × (d ≡ c)) ⊎ HasTerm p c deps

-- The causes of a derived incompatibility are incompatibilities that there are.
abbrev pub IsSourced : ℕ → IncompatibilityCause → Type 0
IsSourced n (derived_from l r) = (l < n) × (r < n)
IsSourced n _ = Unit

-- The retriever makes no derived incompatibilities.
abbrev pub IsExternal : IncompatibilityCause → Type 0
IsExternal (derived_from l r) = ⊥
IsExternal _ = Unit

abbrev pub Supplies : {P V C R : Type 0} → Retriever P V C R → Type 0
Supplies {P} {V} {C} {R} ret =
    (sum : Summary P V) (p : P) (r : R) (ics : List (Incompatibility P C))
    → (ret.incompats sum p r).0 ≡ ok ics
    → All (λ ic. IsExternal ic.cause) ics

pub record Preserved {P V C R : Type 0} ⦃e : Eq P⦄ (sv : Semver V C) (I : Resolver P V C R → Type 0)
    : Type 0 where
  pub on_decision :
      (pkg : P) (version : V) (s : Resolver P V C R) → I s → I (decision sv pkg version s)
  pub on_derivation :
      (icix : ℕ) (inc : Incompatibility P C) (u : Unsatisfied P C) (s : Resolver P V C R)
      → get_elem? s.incompats icix ≡ some inc
      → HasTerm u.pkg u.con inc.deps
      → I s
      → I (derivation sv u.pkg (sv.complement u.con) icix u.positive s)
  pub on_backtrack :
      (to : ℕ) (u : Unwound P V C) (s : Resolver P V C R)
      → unwind to s.step [] (reverse s.assignments) ≡ some u
      → I s
      → I (rewound sv to u s)
  pub on_learn :
      (ic : Incompatibility P C) (s : Resolver P V C R)
      → IsSourced (length s.incompats) ic.cause
      → I s
      → I (record s { incompats = s.incompats ++ ic ∷ [] })
  pub on_index :
      (icix : ℕ) (ic : Incompatibility P C) (s : Resolver P V C R)
      → get_elem? s.incompats icix ≡ some ic
      → I s
      → I (record s { incompat_ixs = index_terms icix ic.deps s.incompat_ixs })
  pub on_retriever : (r : R) (s : Resolver P V C R) → I s → I (record s { retriever = r })

module _ {P V C R : Type 0} ⦃e : Eq P⦄ (sv : Semver V C) where
  -- The term that `scan` hands on is one of the incompatibility's, or the one it was given.
  scan_term :
      (s : Resolver P V C R) (k : IncompatibilityCause) (ix : ℕ) (deps : IndexMap P C)
      (given : Option (Unsatisfied P C)) (u : Unsatisfied P C)
      → scan sv s k ix deps given ≡ some (some u)
      → (given ≡ some u) ⊎ HasTerm u.pkg u.con deps
  unfolding scan
  scan_term s k ix [] given u h = inl (ground arith)
  scan_term s k ix ((p, c) ∷ deps) none u h = ground (
    arith,
    scan_term s k (suc ix) deps none u,
    scan_term s k (suc ix) deps (some (record { pkg = p; con = c; positive = positive_at k ix })) u,
  )
  scan_term s k ix ((p, c) ∷ deps) (some v) u h =
      ground (arith, scan_term s k (suc ix) deps (some v) u)

module _ {P V C R : Type 0} ⦃e : Eq P⦄ (sv : Semver V C) (I : Resolver P V C R → Type 0)
    (kept : Preserved sv I) where
  open kept use {on_decision, on_derivation, on_backtrack, on_learn, on_index, on_retriever}

  conclude-Keeps :
      (icix : ℕ) (inc : Incompatibility P C) (s : Resolver P V C R)
      → get_elem? s.incompats icix ≡ some inc
      → (r : Option (Option (Unsatisfied P C))) → scan sv s inc.cause 0 inc.deps none ≡ r
      → I s
      → Keeps I (conclude sv icix r s)
  conclude-Keeps icix inc s known none e h = h
  conclude-Keeps icix inc s known (some none) e h = h
  conclude-Keeps icix inc s known (some (some u)) e h =
      elim (scan_term sv s inc.cause 0 inc.deps none u e) [
        | inl given ↦ cc
        | inr term ↦ on_derivation icix inc u s known term h
      ]

  pub propagate_incompat-Keeps :
      (icix : ℕ) (s : Resolver P V C R) → I s → Keeps I (propagate_incompat sv icix s)
  unfolding propagate_incompat
  propagate_incompat-Keeps icix s h = elim (Option-cases (get_elem? s.incompats icix)) [
    | inl e ↦ rw e tt
    | inr (inc, e) ↦ rw e (conclude-Keeps icix inc s e _ refl h)
  ]

  pub backtrack-Keeps : (to : ℕ) (s : Resolver P V C R) → I s → Keeps I (backtrack sv to s)
  unfolding backtrack
  backtrack-Keeps to s h = elim (Option-cases (unwind to s.step [] (reverse s.assignments))) [
    | inl e ↦ rw e tt
    | inr (u, e) ↦ rw e (on_backtrack to u s e h)
  ]

  pub incompat_ixs-Keeps : (icix : ℕ) (s : Resolver P V C R) → I s → Keeps I (incompat_ixs icix s)
  unfolding incompat_ixs
  incompat_ixs-Keeps icix s h = elim (Option-cases (get_elem? s.incompats icix)) [
    | inl e ↦ rw e tt
    | inr (ic, e) ↦ rw e (on_index icix ic s e h)
  ]

  pub incompatibility-Keeps :
      (deps : IndexMap P C) (k : IncompatibilityCause) (s : Resolver P V C R)
      → IsSourced (length s.incompats) k
      → I s
      → Keeps I (incompatibility deps k s)
  unfolding incompatibility
  incompatibility-Keeps deps k s sourced h =
      let s' : Resolver P V C R = record s {
        incompats = s.incompats ++ record { deps = deps; cause = k } ∷ [];
      } in
      Keeps-and_then I (incompat_ixs (length s.incompats) s') (λ _. pure (length s.incompats))
        (incompat_ixs-Keeps (length s.incompats) s' (on_learn _ s sourced h)) (λ _ t i. i)
