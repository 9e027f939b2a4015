-- ===== src/Resolve/Agree.antt =====
-- The maps of derivations and decisions never drift from the list of assignments.
use elba.Prelude.{ℕ, Bool, some, List, [], ◌∷◌, ◌++◌, ◌≡◌, refl, Eq, reverse, subst, sym, ap}
use elba.Prelude.IndexMap.{get}
use elba.Prelude.Outcome.{Keeps}
use elba.Semver.{Semver}
use elba.Retriever.{Retriever}
use elba.Resolve.Assignment.{Assignment, AssignmentType}
use elba.Resolve.Backtrack.{Unwound, unwind, rewound}
use elba.Resolve.Facts.{Holds, facts, register-Holds}
use elba.Resolve.Frames.{Rest, rest-register, rest-rewound}
use elba.Resolve.Preserve.{Preserved, Supplies}
use elba.Resolve.Preserve.Solve.{decide_all-Keeps}
use elba.Resolve.Replay.{rewound-Holds}
use elba.Resolve.Solve.{decide_all}
use elba.Resolve.State.{Resolver, decision, derivation, register, new, u16_add_one}

module _ {P V C R : Type 0} ⦃e : Eq P⦄ (sv : Semver V C) where
  -- Each map, read at a package, says what the assignments of that package add up to.
  abbrev pub Agrees : Resolver P V C R → Type 0
  Agrees s = Holds sv s s.assignments

  -- The maps alone decide `Holds`.
  Holds-cong :
      (s t : Resolver P V C R) (given : List (Assignment P V C))
      → t.derivations ≡ s.derivations
      → t.decisions ≡ s.decisions
      → Holds sv s given
      → Holds sv t given
  Holds-cong s t given d d' h = record {
    agrees = λ p. rw (d, d') (h.agrees p);
    derivations_map = rw d h.derivations_map;
    decisions_map = rw d' h.decisions_map;
  }

  assign-Agrees :
      (a : Assignment P V C) (s t : Resolver P V C R)
      → t.derivations ≡ (register sv a s).derivations
      → t.decisions ≡ (register sv a s).decisions
      → t.assignments ≡ (register sv a s).assignments ++ a ∷ []
      → Agrees s
      → Agrees t
  assign-Agrees a s t d d' l h =
      subst (Holds sv t) (sym (cc (ap Rest.assignments (rest-register sv a s))))
        (Holds-cong (register sv a s) t _ d d' (register-Holds sv a s s.assignments h))

  pub decision-Agrees :
      (pkg : P) (version : V) (s : Resolver P V C R) → Agrees s → Agrees (decision sv pkg version s)
  unfolding decision
  decision-Agrees pkg version s h =
      assign-Agrees
        (record {
          step = s.step;
          level = u16_add_one s.level;
          ty = AssignmentType.decision version;
          pkg = pkg;
        })
        (record s { level = u16_add_one s.level }) _ refl refl refl
        (Holds-cong s _ s.assignments refl refl h)

  pub derivation-Agrees :
      (pkg : P) (c : C) (cause : ℕ) (positive : Bool) (s : Resolver P V C R)
      → Agrees s
      → Agrees (derivation sv pkg c cause positive s)
  unfolding derivation
  derivation-Agrees pkg c cause positive s h =
      assign-Agrees
        (record {
          step = s.step;
          level = s.level;
          ty = AssignmentType.derivation c cause positive;
          pkg = pkg;
        })
        s _ refl refl refl h

  -- Backtracking, which replays the assignments that are kept into empty maps, leaves maps that say
  -- exactly what those assignments add up to.
  pub rewound-Agrees :
      (to : ℕ) (u : Unwound P V C) (s : Resolver P V C R)
      → unwind to s.step [] (reverse s.assignments) ≡ some u
      → Agrees s
      → Agrees (rewound sv to u s)
  rewound-Agrees to u s e h =
      subst (Holds sv (rewound sv to u s)) (sym (ap Rest.assignments (rest-rewound sv to u s)))
        (rewound-Holds sv to s u e h)

  Agrees-Preserved : Preserved sv Agrees
  Agrees-Preserved = record {
    on_decision = decision-Agrees;
    on_derivation =
        λ icix inc u s known term. derivation-Agrees u.pkg (sv.complement u.con) icix u.positive s;
    on_backtrack = rewound-Agrees;
    on_learn = λ ic s sourced. Holds-cong s _ s.assignments refl refl;
    on_index = λ icix ic s known. Holds-cong s _ s.assignments refl refl;
    on_retriever = λ r s. Holds-cong s _ s.assignments refl refl;
  }

  new-Agrees : (r : R) → Agrees (new r)
  unfolding new facts get
  new-Agrees r = record { agrees = λ p. refl; derivations_map = tt; decisions_map = tt }

  -- Wherever the main loop stops, the maps of derivations and decisions say of each package exactly
  -- what the list of assignments adds up to for it, and they bind no package twice.
  pub decide_all-Agrees :
      (ret : Retriever P V C R) (fuel : ℕ) (r : R)
      → Supplies ret
      → Keeps Agrees (decide_all sv ret fuel (new r))
  decide_all-Agrees ret fuel r supplied =
      decide_all-Keeps sv ret Agrees Agrees-Preserved supplied fuel (new r) (new-Agrees r)
