-- ===== src/Resolve/Facts.antt =====
-- A reference for the maps of derivations and decisions: what the list of assignments says of one
-- package, computed afresh.
use elba.Prelude.{
  Bool, true, false, Option, none, some, List, [], ◌∷◌, ◌++◌, ◌≡◌, refl, inl, inr, Eq, ◌==◌, any_of,
  arith, sym, ap, ◌∙◌, if◌then◌else◌, Bool-cases,
}
use elba.Prelude.IndexMap.{IsMap, get, get-insert, get_cong, insert-IsMap}
use elba.Semver.{Semver}
use elba.Resolve.Assignment.{Assignment, AssignmentType}
use elba.Resolve.State.{Resolver, register, narrow}

-- The derivation and the decision for one package.
abbrev pub Facts : Type 0 → Type 0 → Type 0
Facts V C = Option (Bool × C) × Option V

abbrev pub no_facts : {V C : Type 0} → Facts V C
no_facts = (none, none)

abbrev pub note : {V C : Type 0} → Semver V C → Facts V C → AssignmentType V C → Facts V C
note sv f (AssignmentType.decision v) = (some (true, sv.of_version v), some v)
note sv f (AssignmentType.derivation c cause positive) = (some (narrow sv f.0 positive c), f.1)

module _ {P V C : Type 0} ⦃e : Eq P⦄ (sv : Semver V C) where
  unfoldable pub facts : P → Facts V C → List (Assignment P V C) → Facts V C
  facts p f [] = f
  facts p f (a ∷ later) = facts p (if a.pkg == p then note sv f a.ty else f) later

  pub facts-append :
      (p : P) (f : Facts V C) (xs ys : List (Assignment P V C))
      → facts p f (xs ++ ys) ≡ facts p (facts p f xs) ys
  unfolding facts
  facts-append p f [] ys = refl
  facts-append p f (a ∷ xs) ys = facts-append p (if a.pkg == p then note sv f a.ty else f) xs ys

  pub facts_skip :
      (p : P) (f : Facts V C) (xs : List (Assignment P V C))
      → any_of (λ a. a.pkg == p) xs ≡ false
      → facts p f xs ≡ f
  unfolding facts
  facts_skip p f [] h = refl
  facts_skip p f (a ∷ xs) h = elim (Bool-cases (a.pkg == p)) [
    | inl hit ↦ cc (rw hit at h)
    | inr miss ↦ rw miss (facts_skip p f xs (rw miss at h))
  ]

module _ {P V C R : Type 0} ⦃e : Eq P⦄ (sv : Semver V C) where
  abbrev pub view : P → Resolver P V C R → Facts V C
  view p s = (get p s.derivations, get p s.decisions)

  pub view-register :
      (p : P) (a : Assignment P V C) (s : Resolver P V C R)
      → view p (register sv a s) ≡ (if a.pkg == p then note sv (view p s) a.ty else view p s)
  unfolding register
  view-register p a s = by_type a.ty
    where
      by_type :
          (ty : AssignmentType V C)
          → view p (register sv (record a { ty = ty }) s)
            ≡ (if a.pkg == p then note sv (view p s) ty else view p s)
      by_type (AssignmentType.decision v) = ground (
        arith,
        get-insert p a.pkg v s.decisions,
        get-insert p a.pkg (true, sv.of_version v) s.derivations,
      )
      by_type (AssignmentType.derivation c cause positive) = ground (
        arith,
        get-insert p a.pkg (narrow sv (get a.pkg s.derivations) positive c) s.derivations,
        get_cong a.pkg p s.derivations,
      )

  -- The maps hold what the list says, and no key twice.
  pub record Holds (s : Resolver P V C R) (given : List (Assignment P V C)) : Type 0 where
    pub agrees : (p : P) → view p s ≡ facts sv p no_facts given
    pub derivations_map : IsMap s.derivations
    pub decisions_map : IsMap s.decisions

  pub register-maps :
      (a : Assignment P V C) (s : Resolver P V C R)
      → IsMap s.derivations × IsMap s.decisions
      → IsMap (register sv a s).derivations × IsMap (register sv a s).decisions
  unfolding register
  register-maps a s h = by_type a.ty
    where
      by_type :
          (ty : AssignmentType V C)
          → IsMap (register sv (record a { ty = ty }) s).derivations
            × IsMap (register sv (record a { ty = ty }) s).decisions
      by_type (AssignmentType.decision v) = (
        insert-IsMap a.pkg (true, sv.of_version v) s.derivations h.0,
        insert-IsMap a.pkg v s.decisions h.1,
      )
      by_type (AssignmentType.derivation c cause positive) = (
        insert-IsMap a.pkg (narrow sv (get a.pkg s.derivations) positive c) s.derivations h.0,
        h.1,
      )

  pub register-Holds :
      (a : Assignment P V C) (s : Resolver P V C R) (given : List (Assignment P V C))
      → Holds s given
      → Holds (register sv a s) (given ++ a ∷ [])
  unfolding facts
  register-Holds a s given h = record {
    agrees = λ p.
        view-register p a s
        ∙ ap (λ f. if a.pkg == p then note sv f a.ty else f) (h.agrees p)
        ∙ sym (facts_snoc p);
    derivations_map = (register-maps a s (h.derivations_map, h.decisions_map)).0;
    decisions_map = (register-maps a s (h.derivations_map, h.decisions_map)).1;
  }
    where
      facts_snoc :
          (p : P)
          → facts sv p no_facts (given ++ a ∷ []) ≡ (
              if a.pkg == p
              then note sv (facts sv p no_facts given) a.ty
              else facts sv p no_facts given)
      facts_snoc p = facts-append sv p no_facts given (a ∷ [])
