-- ===== src/Resolve/Satisfier/First.antt =====
-- `satisfier` finds the first assignment by which a term is satisfied.
use elba.Prelude.{
  true, Option, none, some, List, [], ◌∷◌, ◌++◌, ◌≡◌, refl, inl, inr, Eq, ◌==◌, Bool-cases, ap,
  subst, if◌then◌else◌,
}
use elba.Semver.{Semver}
use elba.Resolve.Assignment.{Assignment, constraint}
use elba.Resolve.Satisfier.{within, satisfier_from, satisfier}
use elba.Resolve.State.{Resolver}

module _ {P V C : Type 0} ⦃e : Eq P⦄ (sv : Semver V C) where
  -- The intersection of the constraints that assignments put on a package.
  abbrev pub total : P → C → List (Assignment P V C) → C
  total p c [] = c
  total p c (a ∷ later) =
      total p (if a.pkg == p then sv.intersection c (constraint sv a) else c) later

  -- The assignments up to here satisfy the term, and the last of them is for the package.
  abbrev pub Reaches : P → C → C → List (Assignment P V C) → Assignment P V C → Type 0
  Reaches p con c before a =
      ((a.pkg == p) ≡ true) × (within sv (total p c (before ++ a ∷ [])) con ≡ true)

  -- No assignment of the list is one by which the term is satisfied.
  abbrev pub NeverReaches : P → C → C → List (Assignment P V C) → Type 0
  NeverReaches p con c [] = Unit
  NeverReaches p con c (a ∷ later) =
      (¬ Reaches p con c [] a)
      × NeverReaches p con (if a.pkg == p then sv.intersection c (constraint sv a) else c) later

  -- What each answer of `satisfier` says.
  pub data First (p : P) (con : C) (c : C) (given : List (Assignment P V C))
      : Option (Assignment P V C) → Type 0 where
    nowhere : NeverReaches p con c given → First p con c given none
    at :
        (before : List (Assignment P V C)) (a : Assignment P V C) (after : List (Assignment P V C))
        → given ≡ before ++ a ∷ after
        → NeverReaches p con c before
        → Reaches p con c before a
        → First p con c given (some a)

  First-cons :
      (p : P) (con c c' : C) (a : Assignment P V C) (later : List (Assignment P V C))
      (r : Option (Assignment P V C))
      → c' ≡ (if a.pkg == p then sv.intersection c (constraint sv a) else c)
      → ¬ Reaches p con c [] a
      → First p con c' later r
      → First p con c (a ∷ later) r
  First-cons p con c c' a later none e skip (nowhere h) =
      nowhere (skip, subst (λ d. NeverReaches p con d later) e h)
  First-cons p con c c' a later (some _) e skip (at before b after split h reach) =
      at (a ∷ before) b after (ap (λ l. a ∷ l) split)
        (skip, subst (λ d. NeverReaches p con d before) e h)
        (reach.0, subst (λ d. within sv (total p d (before ++ b ∷ [])) con ≡ true) e reach.1)

  satisfier_from-First :
      (p : P) (con c : C) (given : List (Assignment P V C))
      → First p con c given (satisfier_from sv p con c given)
  unfolding satisfier_from
  satisfier_from-First p con c [] = nowhere tt
  satisfier_from-First p con c (a ∷ later) = elim (Bool-cases (a.pkg == p)) [
    | inr miss ↦
        rw (miss, satisfier_from)
          (First-cons p con c c a later _ (rw miss) (λ r. cc (r.0))
            (satisfier_from-First p con c later))
    | inl hit ↦ elim (Bool-cases (within sv (sv.intersection c (constraint sv a)) con)) [
      | inl done ↦ rw (hit, done, satisfier_from) (at [] a later refl tt (hit, rw hit done))
      | inr more ↦
          rw (hit, more, satisfier_from)
            (First-cons p con c (sv.intersection c (constraint sv a)) a later _ (rw hit)
              (λ r. let met = rw hit at (r.1) in cc)
              (satisfier_from-First p con (sv.intersection c (constraint sv a)) later))
    ]
  ]

  -- `satisfier` answers with the first assignment of the package by which the assignments of that
  -- package, taken together, satisfy the term, and with `None` exactly where there is none.
  pub satisfier-First :
      {R : Type 0} (s : Resolver P V C R) (p : P) (con : C)
      → First p con sv.any s.assignments (satisfier sv s p con)
  unfolding satisfier
  satisfier-First s p con = satisfier_from-First p con sv.any s.assignments
