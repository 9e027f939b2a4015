-- ===== src/Resolve/Sound/Propagate.antt =====
-- Unit propagation is sound: no selection is lost that avoids the incompatibility.
use elba.Prelude.{
  ℕ, suc, Bool, true, not, ◌||◌, Option, none, some, [], ◌∷◌, ◌≡◌, refl, inl, inr, Eq, ◌==◌, arith,
  get_elem?, Option-cases, Bool-cases, sym, ◌∙◌, ap, subst, some_inj, if◌then◌else◌,
}
use elba.Prelude.IndexMap.{IndexMap, get, get-insert}
use elba.Prelude.Outcome.{done, Outcome}
use elba.Semver.{
  Semver, SetSemantics, Relation, subset, equal, superset, disjoint, other, is_subset, is_equal,
}
use elba.Resolve.Incompat.{
  Incompatibility, IncompatibilityCause, IncompatMatch, almost, contradicted,
}
use elba.Resolve.Propagate.{
  Unsatisfied, scan, conclude, propagate_incompat, is_contradicted, is_satisfied, positive_at,
}
use elba.Resolve.Satisfier.{relation}
use elba.Resolve.Sound.{Selection, Meets, Violates, Consistent}
use elba.Resolve.State.{Resolver, derivation, narrow}

module _ {P V C R : Type 0} ⦃e : Eq P⦄ (sv : Semver V C) where
  relation_none :
      (s : Resolver P V C R) (p : P) (c : C)
      → get p s.derivations ≡ none
      → relation sv s p c ≡ superset
  unfolding relation
  relation_none s p c e = rw (e, relation)

  relation_some :
      (s : Resolver P V C R) (p : P) (c d : C) (positive : Bool)
      → get p s.derivations ≡ some (positive, d)
      → relation sv s p c ≡ sv.relation d c
  unfolding relation
  relation_some s p c d positive e = rw (e, relation)

module _ {P V C Point : Type 0} ⦃e : Eq P⦄ {sv : Semver V C} (sem : SetSemantics sv Point)
    (σ : Selection P Point) where
  pub within-Meets :
      (c d : C) (p : P)
      → (is_subset (sv.relation c d) || is_equal (sv.relation c d)) ≡ true
      → Meets sem σ p c
      → Meets sem σ p d
  within-Meets c d p h m = by_relation (sv.relation c d) refl h
    where
      by_relation :
          (r : Relation)
          → sv.relation c d ≡ r
          → (is_subset r || is_equal r) ≡ true
          → Meets sem σ p d
      by_relation subset e h = sem.mem-subset c d (σ.chosen p) e m
      by_relation equal e h = sym (sem.mem-equal c d (σ.chosen p) e) ∙ m
      by_relation superset e h = cc
      by_relation disjoint e h = cc
      by_relation other e h = cc

  -- With no term left over all terms are met; with one, a selection that meets it meets all.
  abbrev pub LeftOver : IndexMap P C → Option (Unsatisfied P C) → Type 0
  LeftOver deps none = Violates sem σ deps
  LeftOver deps (some u) = Meets sem σ u.pkg u.con → Violates sem σ deps

  LeftOver-cons :
      (p : P) (c : C) (deps : IndexMap P C) (r : Option (Unsatisfied P C))
      → Meets sem σ p c
      → LeftOver deps r
      → LeftOver ((p, c) ∷ deps) r
  LeftOver-cons p c deps none m h = (m, h)
  LeftOver-cons p c deps (some u) m h = λ left. (m, h left)

module _ {P V C R Point : Type 0} ⦃e : Eq P⦄ {sv : Semver V C} (sem : SetSemantics sv Point)
    (σ : Selection P Point) where
  -- A term that the derivations satisfy is met by every consistent selection.
  is_satisfied-Meets :
      (s : Resolver P V C R) (p : P) (c : C)
      → Consistent sem σ s
      → is_satisfied sv s p c ≡ true
      → Meets sem σ p c
  is_satisfied-Meets s p c con h = elim (Option-cases (get p s.derivations)) [
    | inl e ↦ cc (rw (relation_none sv s p c e) at h)
    | inr ((b, d), e) ↦
        within-Meets sem σ d c p (rw (relation_some sv s p c d b e) at h) (con p b d e)
  ]

  scan_given :
      (s : Resolver P V C R) (k : IncompatibilityCause) (ix : ℕ) (deps : IndexMap P C)
      (v : Unsatisfied P C) (r : Option (Unsatisfied P C))
      → Consistent sem σ s
      → scan sv s k ix deps (some v) ≡ some r
      → (r ≡ some v) × Violates sem σ deps
  unfolding scan
  scan_given s k ix [] v r con h = (sym (some_inj h), tt)
  scan_given s k ix ((p, c) ∷ deps) v r con h = elim (Bool-cases (is_contradicted sv s p c)) [
    | inl b ↦ cc (rw (b, scan) at h)
    | inr b ↦ elim (Bool-cases (is_satisfied sv s p c)) [
      | inl b' ↦
          let (same, met) = scan_given s k (suc ix) deps v r con (rw (b, b', scan) at h) in
          (same, (is_satisfied-Meets s p c con b', met))
      | inr b' ↦ cc (rw (b, b', scan) at h)
    ]
  ]

  pub scan-LeftOver :
      (s : Resolver P V C R) (k : IncompatibilityCause) (ix : ℕ) (deps : IndexMap P C)
      (r : Option (Unsatisfied P C))
      → Consistent sem σ s
      → scan sv s k ix deps none ≡ some r
      → LeftOver sem σ deps r
  unfolding scan
  scan-LeftOver s k ix [] r con h = subst (LeftOver sem σ []) (some_inj h) tt
  scan-LeftOver s k ix ((p, c) ∷ deps) r con h = elim (Bool-cases (is_contradicted sv s p c)) [
    | inl b ↦ cc (rw (b, scan) at h)
    | inr b ↦ elim (Bool-cases (is_satisfied sv s p c)) [
      | inl b' ↦
          LeftOver-cons sem σ p c deps r (is_satisfied-Meets s p c con b')
            (scan-LeftOver s k (suc ix) deps r con (rw (b, b', scan) at h))
      | inr b' ↦
          let found : Unsatisfied P C = record { pkg = p; con = c; positive = positive_at k ix } in
          let (same, met) = scan_given s k (suc ix) deps found r con (rw (b, b', scan) at h) in
          subst (LeftOver sem σ ((p, c) ∷ deps)) (sym same) (λ m. (m, met))
    ]
  ]

  derivation-Consistent :
      (pkg : P) (c : C) (cause : ℕ) (positive : Bool) (s : Resolver P V C R)
      → Consistent sem σ s
      → Meets sem σ pkg c
      → Consistent sem σ (derivation sv pkg c cause positive s)
  unfolding derivation
  derivation-Consistent pkg c cause positive s con m p b d h =
      elim (Option-cases (get pkg s.derivations)) [
        | inl e ↦ ground (arith, inserted, σ.respects pkg p, con p b d)
        | inr ((b', d'), e) ↦ ground (
          arith,
          inserted,
          σ.respects pkg p,
          con p b d,
          con pkg b' d' e,
          sem.mem-intersection d' c (σ.chosen pkg),
        )
      ]
    where
      inserted : get p (derivation sv pkg c cause positive s).derivations ≡ (
          if pkg == p
          then some (narrow sv (get pkg s.derivations) positive c)
          else get p s.derivations)
      inserted = get-insert p pkg (narrow sv (get pkg s.derivations) positive c) s.derivations

  -- What `propagate_incompat` leaves to a selection that avoids the incompatibility.
  abbrev pub Outlives : Outcome (Resolver P V C R) (IncompatMatch P) → Type 0
  Outlives (done (almost p) t) = Consistent sem σ t
  Outlives (done contradicted t) = Consistent sem σ t
  Outlives _ = ⊥

  conclude-Outlives :
      (icix : ℕ) (inc : Incompatibility P C) (s : Resolver P V C R)
      (r : Option (Option (Unsatisfied P C)))
      → scan sv s inc.cause 0 inc.deps none ≡ r
      → Consistent sem σ s
      → ¬ Violates sem σ inc.deps
      → Outlives (conclude sv icix r s)
  conclude-Outlives icix inc s none e con avoids = con
  conclude-Outlives icix inc s (some none) e con avoids =
      avoids (scan-LeftOver s inc.cause 0 inc.deps none con e)
  conclude-Outlives icix inc s (some (some u)) e con avoids =
      derivation-Consistent u.pkg (sv.complement u.con) icix u.positive s con
        (complement_met (λ m. avoids (scan-LeftOver s inc.cause 0 inc.deps (some u) con e m)))
    where
      complement_met : ¬ Meets sem σ u.pkg u.con → Meets sem σ u.pkg (sv.complement u.con)
      complement_met missed = elim (Bool-cases (sem.mem u.con (σ.chosen u.pkg))) [
        | inl b ↦ absurd (missed b)
        | inr b ↦ sem.mem-complement u.con (σ.chosen u.pkg) ∙ ap not b
      ]

  -- Unit propagation over an incompatibility that there is, for a selection that is consistent with
  -- the derivations and avoids the incompatibility: the answer is "almost" or "contradicted", never
  -- "satisfied" nor a failure, and the selection is consistent with the derivations afterwards.
  pub propagate_incompat-Outlives :
      (icix : ℕ) (inc : Incompatibility P C) (s : Resolver P V C R)
      → get_elem? s.incompats icix ≡ some inc
      → Consistent sem σ s
      → ¬ Violates sem σ inc.deps
      → Outlives (propagate_incompat sv icix s)
  unfolding propagate_incompat
  propagate_incompat-Outlives icix inc s known con avoids =
      rw known (conclude-Outlives icix inc s _ refl con avoids)
