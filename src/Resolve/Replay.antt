-- ===== src/Resolve/Replay.antt =====
-- `backtrack` against recomputing everything: the maps after it are those of the shorter list.
use mathlib.Core.List.{reverse-reverse}
use elba.Prelude.{
  ℕ, true, some, List, [], ◌∷◌, ◌++◌, ◌≡◌, refl, inl, inr, Eq, ◌==◌, arith, beq_comm, if◌then◌else◌,
  Bool-cases, ap, ◌∙◌, sym, reverse,
}
use elba.Prelude.IndexMap.{IsMap, remove, get-remove, remove-IsMap}
use elba.Prelude.IndexSet.{contains}
use elba.Semver.{Semver}
use elba.Resolve.Assignment.{Assignment}
use elba.Resolve.Backtrack.{Unwound, unwind, forget, reregister, rewound}
use elba.Resolve.Facts.{
  no_facts, facts, facts-append, facts_skip, view, view-register, Holds, register-maps,
}
use elba.Resolve.State.{Resolver, register}
use elba.Resolve.Unwind.{Split, unwind-Split}

contains_cong :
    {P : Type 0} ⦃e : Eq P⦄ (p q : P) (ps : List P)
    → (p == q) ≡ true
    → contains p ps ≡ contains q ps
unfolding contains
contains_cong p q [] h = refl
contains_cong ⦃e⦄ p q (x ∷ ps) h =
    ground (arith, e.beq_cong p q x h, beq_comm p x, beq_comm q x, contains_cong p q ps h)

-- What stays is the front of the list.
pub kept_prefix :
    {P V C : Type 0} ⦃e : Eq P⦄ (to step : ℕ) (given : List (Assignment P V C)) (u : Unwound P V C)
    → unwind to step [] (reverse given) ≡ some u
    → (popped : List (Assignment P V C)) × (given ≡ reverse u.stack ++ popped)
kept_prefix to step given u h =
    let parts = unwind-Split to step [] (reverse given) u h in
    (parts.popped, sym (reverse-reverse given) ∙ parts.split)

module _ {P V C R : Type 0} ⦃e : Eq P⦄ (sv : Semver V C) where
  abbrev AreMaps : Resolver P V C R → Type 0
  AreMaps s = IsMap s.derivations × IsMap s.decisions

  view-forget :
      (p : P) (ps : List P) (s : Resolver P V C R)
      → AreMaps s
      → view sv p (forget ps s) ≡ (if contains p ps then no_facts else view sv p s)
  unfolding forget contains
  view-forget p [] s h = refl
  view-forget p (q ∷ ps) s h = ground (
    arith,
    view-forget p ps
        (record s { decisions = remove q s.decisions; derivations = remove q s.derivations })
        (remove-IsMap q s.derivations h.0, remove-IsMap q s.decisions h.1),
    get-remove p q s.derivations h.0,
    get-remove p q s.decisions h.1,
  )

  forget-maps : (ps : List P) (s : Resolver P V C R) → AreMaps s → AreMaps (forget ps s)
  unfolding forget
  forget-maps [] s h = h
  forget-maps (q ∷ ps) s h =
      forget-maps ps _ (remove-IsMap q s.derivations h.0, remove-IsMap q s.decisions h.1)

  view-reregister :
      (p : P) (ps : List P) (given : List (Assignment P V C)) (s : Resolver P V C R)
      → view sv p (reregister sv ps given s)
        ≡ (if contains p ps then facts sv p (view sv p s) given else view sv p s)
  unfolding reregister facts
  view-reregister p ps [] s = ground arith
  view-reregister p ps (a ∷ later) s = ground (
    arith,
    view-reregister p ps later (register sv a s),
    view-reregister p ps later s,
    view-register sv p a s,
    contains_cong a.pkg p ps,
  )

  reregister-maps :
      (ps : List P) (given : List (Assignment P V C)) (s : Resolver P V C R)
      → AreMaps s
      → AreMaps (reregister sv ps given s)
  unfolding reregister
  reregister-maps ps [] s h = h
  reregister-maps ps (a ∷ later) s h = elim (Bool-cases (contains a.pkg ps)) [
    | inl lost ↦ rw (lost, reregister) (reregister-maps ps later _ (register-maps sv a s h))
    | inr kept ↦ rw (kept, reregister) (reregister-maps ps later s h)
  ]

  -- Backtracking from maps that agree with the assignments to maps that agree with those kept.
  pub rewound-Holds :
      (to : ℕ) (s : Resolver P V C R) (u : Unwound P V C)
      → unwind to s.step [] (reverse s.assignments) ≡ some u
      → Holds sv s s.assignments
      → Holds sv (rewound sv to u s) (reverse u.stack)
  unfolding contains
  rewound-Holds to s u h old = record {
    agrees = λ p. ground (
      arith,
      view-reregister p u.packages (reverse u.stack) emptied,
      view-forget p u.packages lowered (old.derivations_map, old.decisions_map),
      old.agrees p,
      ap (facts sv p no_facts) split,
      facts-append sv p no_facts (reverse u.stack) parts.popped,
      facts_skip sv p (facts sv p no_facts (reverse u.stack)) parts.popped,
      parts.lost p,
    );
    derivations_map = maps.0;
    decisions_map = maps.1;
  }
    where
      parts : Split to s.step [] (reverse s.assignments) u
      parts = unwind-Split to s.step [] (reverse s.assignments) u h

      split : s.assignments ≡ reverse u.stack ++ parts.popped
      split = sym (reverse-reverse s.assignments) ∙ parts.split

      lowered : Resolver P V C R
      lowered = record s { level = to; step = u.step; assignments = reverse u.stack }

      emptied : Resolver P V C R
      emptied = forget u.packages lowered

      maps : AreMaps (rewound sv to u s)
      maps =
          reregister-maps u.packages (reverse u.stack) _
            (forget-maps u.packages _ (old.derivations_map, old.decisions_map))
