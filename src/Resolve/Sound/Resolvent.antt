-- ===== src/Resolve/Sound/Resolvent.antt =====
-- The step of conflict resolution: when the resolvent follows from the two incompatibilities, and what
-- it drops when they share a package.
use elba.Prelude.{
  true, false, not, none, [], ◌++◌, All-map_of, ◌≡◌, inl, inr, ◌⊎◌, Eq, ◌==◌, beq_comm, arith, keep,
  All-append_left, Bool-cases, ◌∙◌, ap, subst,
}
use elba.Prelude.IndexMap.{IndexMap, IsMap, get, insert}
use elba.Semver.{Semver, SetSemantics}
use elba.Resolve.Assignment.{Assignment, constraint}
use elba.Resolve.Conflict.{collect, difference_of, new_terms, same_term}
use elba.Resolve.Sound.Terms.{
  insert_fresh, collect_distinct, All-terms, one_term, get-keep-none, get-append_both, All-of-keep,
  All-append_right,
}
use elba.Resolve.Preserve.{HasTerm}
use elba.Resolve.Sound.{Selection, Meets, Violates}

module _ {P V C Point : Type 0} ⦃e : Eq P⦄ {sv : Semver V C} (sem : SetSemantics sv Point) (pkg : P)
    (c con : C) (a : Assignment P V C) (i cause : IndexMap P C) where
  -- What the search and the links give of the most recent term and its satisfier.
  pub record IsPivot : Type 0 where
    pub same_package : (a.pkg == pkg) ≡ true
    pub incompat_map : IsMap i
    pub cause_map : IsMap cause
    pub term : HasTerm pkg c i
    pub cause_term : HasTerm a.pkg con cause
    pub derived : constraint sv a ≡ sv.complement con

  abbrev others : IndexMap P C
  others = keep (λ t. not (same_term sv t (pkg, c))) i

  abbrev cause_others : IndexMap P C
  cause_others = keep (λ t. not (t.0 == a.pkg)) cause

  -- No package stands both in what is kept of the one and in what is kept of the other.
  abbrev pub AreDisjoint : Type 0
  AreDisjoint = IsMap (others ++ cause_others)

  module _ (pivot : IsPivot) where
    open pivot use {same_package, incompat_map, cause_map, term, cause_term, derived}

    pkg_fresh : get pkg (others ++ cause_others) ≡ none
    pkg_fresh =
        get-append_both pkg others cause_others
          (get-keep-none pkg _ i
            (All-map_of _ _ (λ (q, d) h same. dropped q d h same) i (All-terms i i (λ q d h. h))))
          (get-keep-none pkg _ cause (
            All-map_of _ _ (λ (q, d) _ same. cause_dropped q d same) cause
              (All-terms cause cause (λ q d h. h))))
      where
        dropped :
            (q : P) (d : C)
            → HasTerm q d i
            → (q == pkg) ≡ true
            → not (same_term sv (q, d) (pkg, c)) ≡ false
        dropped q d h same =
            ground (arith, same, one_term pkg q c d i incompat_map term h same, sem.con_eq_refl c)

        cause_dropped : (q : P) (d : C) → (q == pkg) ≡ true → not (q == a.pkg) ≡ false
        cause_dropped q d same =
            ground (
              arith,
              same,
              same_package,
              e.beq_cong pkg q a.pkg,
              beq_comm q pkg,
              beq_comm pkg a.pkg,
            )

    module _ (σ : Selection P Point) where
      -- Where the selection meets the term of the incompatibility, it meets all that was dropped.
      incompat_violated : Meets sem σ pkg c → Violates sem σ others → Violates sem σ i
      incompat_violated m kept =
          All-of-keep _ _ i kept
            (All-map_of _ _ (λ (q, d) _ gone. back q d gone) i (All-terms i i (λ q d h. h)))
        where
          back : (q : P) (d : C) → not (same_term sv (q, d) (pkg, c)) ≡ false → Meets sem σ q d
          back q d gone = ground (arith, gone, σ.respects q pkg, sem.mem-con_eq d c (σ.chosen q), m)

      cause_violated : Meets sem σ a.pkg con → Violates sem σ cause_others → Violates sem σ cause
      cause_violated m kept = All-of-keep _ _ cause kept (
          All-map_of _ _ (λ (q, d) h gone. back q d h gone) cause
            (All-terms cause cause (λ q d h. h)))
        where
          back : (q : P) (d : C) → HasTerm q d cause → not (q == a.pkg) ≡ false → Meets sem σ q d
          back q d h gone = ground (
            arith,
            gone,
            σ.respects q a.pkg,
            one_term a.pkg q con d cause cause_map cause_term h,
            m,
          )

      -- Where it does not, and meets what the resolvent says of the package, it meets the cause's term.
      cause_term_met :
          sem.mem c (σ.chosen pkg) ≡ false
          → sem.mem (sv.difference (constraint sv a) c) (σ.chosen pkg) ≡ false
          → Meets sem σ a.pkg con
      cause_term_met missed h = ground (
        arith,
        missed,
        h,
        sem.mem-difference (constraint sv a) c (σ.chosen pkg),
        ap (λ d. sem.mem d (σ.chosen pkg)) derived,
        sem.mem-complement con (σ.chosen pkg),
        σ.respects a.pkg pkg same_package,
      )

      kept_violated :
          Violates sem σ (others ++ cause_others)
          → sem.mem (sv.difference (constraint sv a) c) (σ.chosen pkg) ≡ false
          → Violates sem σ i ⊎ Violates sem σ cause
      kept_violated all h = elim (Bool-cases (sem.mem c (σ.chosen pkg))) [
        | inl met ↦ inl (incompat_violated met (All-append_left _ others cause_others all))
        | inr missed ↦
            inr (
              cause_violated (cause_term_met missed h) (All-append_right _ others cause_others all))
      ]

      -- The resolvent follows from the incompatibility and the cause of its most recent satisfier,
      -- where what is kept of the two shares no package: a selection that violates the resolvent
      -- violates one of them. So a selection that avoids both avoids the resolvent.
      pub resolvent_sound :
          AreDisjoint
          → Violates sem σ (new_terms sv (pkg, c) a.pkg (difference_of sv (pkg, c) a) i cause)
          → Violates sem σ i ⊎ Violates sem σ cause
      unfolding new_terms difference_of
      resolvent_sound distinct all = elim (Bool-cases (sv.con_eq diff sv.empty)) [
        | inl none_left ↦
            kept_violated (subst (Violates sem σ) collected (rw none_left at all))
              (sem.mem-con_eq diff sv.empty (σ.chosen pkg) none_left ∙ sem.mem-empty (σ.chosen pkg))
        | inr left ↦
            let split =
              subst (Violates sem σ)
                (ap (insert pkg (sv.complement diff)) collected
                  ∙ insert_fresh pkg (sv.complement diff) (others ++ cause_others) pkg_fresh)
                (rw left at all) in
            kept_violated (All-append_left _ (others ++ cause_others) _ split)
              (uncovered ((All-append_right _ (others ++ cause_others) _ split).0))
      ]
        where
          diff : C
          diff = sv.difference (constraint sv a) c

          collected : collect [] (others ++ cause_others) ≡ others ++ cause_others
          collected = collect_distinct [] (others ++ cause_others) distinct

          uncovered : Meets sem σ pkg (sv.complement diff) → sem.mem diff (σ.chosen pkg) ≡ false
          uncovered h = ground (arith, h, sem.mem-complement diff (σ.chosen pkg))
