-- ===== src/Resolve/Steps.antt =====
-- The step counter: it counts the assignments, modulo the word size, through all backtracking.
use mathlib.Core.List.{reverse-reverse}
use elba.Prelude.{
  ℕ, suc, ◌+◌, ◌%◌, some, List, [], ◌∷◌, ◌++◌, ◌≡◌, refl, Eq, arith, reverse, sym, ◌∙◌, ap, subst,
  length, length-append,
}
use elba.Prelude.Outcome.{Keeps}
use elba.Semver.{Semver}
use elba.Retriever.{Retriever}
use elba.Resolve.Assignment.{Assignment, AssignmentType}
use elba.Resolve.Backtrack.{Unwound, unwind, rewound}
use elba.Resolve.Frames.{Rest, rest-register, rest-rewound}
use elba.Resolve.Preserve.{Preserved, Supplies}
use elba.Resolve.Preserve.Solve.{decide_all-Keeps}
use elba.Resolve.Solve.{decide_all}
use elba.Resolve.State.{Resolver, decision, derivation, register, new, u16_mod, u16_add_one}
use elba.Resolve.Unwind.{Split, unwind-Split}

-- The assignments bear the steps from `n` on.
abbrev pub Numbered : {P V C : Type 0} → ℕ → List (Assignment P V C) → Type 0
Numbered n [] = Unit
Numbered n (a ∷ later) = (a.step ≡ n % u16_mod) × Numbered (suc n) later

module _ {P V C : Type 0} where
  Numbered-append_left :
      (n : ℕ) (xs ys : List (Assignment P V C)) → Numbered n (xs ++ ys) → Numbered n xs
  Numbered-append_left n [] ys h = tt
  Numbered-append_left n (a ∷ xs) ys h = (h.0, Numbered-append_left (suc n) xs ys h.1)

  Numbered-snoc :
      (n : ℕ) (xs : List (Assignment P V C)) (a : Assignment P V C)
      → Numbered n xs
      → a.step ≡ (n + length xs) % u16_mod
      → Numbered n (xs ++ a ∷ [])
  Numbered-snoc n [] a h s = (omega arith, tt)
  Numbered-snoc n (x ∷ xs) a h s = (h.0, Numbered-snoc (suc n) xs a h.1 (omega arith))

abbrev CountedParts : {P V C : Type 0} → ℕ → List (Assignment P V C) → Type 0
CountedParts step given = (step ≡ (length given + 1) % u16_mod) × Numbered 1 given

snoc-Counted :
    {P V C : Type 0} (step : ℕ) (given : List (Assignment P V C)) (a : Assignment P V C)
    → a.step ≡ step
    → CountedParts step given
    → CountedParts (u16_add_one step) (given ++ a ∷ [])
snoc-Counted step given a same h = (
  omega (arith, length-append given (a ∷ []), h.0),
  Numbered-snoc 1 given a h.1 (omega (arith, h.0)),
)

module _ {P V C R : Type 0} ⦃e : Eq P⦄ (sv : Semver V C) where
  abbrev pub IsCounted : Resolver P V C R → Type 0
  IsCounted s = CountedParts s.step s.assignments

  assign-IsCounted :
      (a : Assignment P V C) (s t : Resolver P V C R)
      → a.step ≡ s.step
      → t.step ≡ u16_add_one (register sv a s).step
      → t.assignments ≡ (register sv a s).assignments ++ a ∷ []
      → IsCounted s
      → IsCounted t
  assign-IsCounted a s t same st l h =
      rw (st, l)
        (subst (λ (r : Rest P V C R). CountedParts (u16_add_one r.step) (r.assignments ++ a ∷ []))
          (sym (rest-register sv a s)) (snoc-Counted s.step s.assignments a same h))

  rewound-IsCounted :
      (to : ℕ) (u : Unwound P V C) (s : Resolver P V C R)
      → unwind to s.step [] (reverse s.assignments) ≡ some u
      → IsCounted s
      → IsCounted (rewound sv to u s)
  rewound-IsCounted to u s e h =
      subst (λ (r : Rest P V C R). CountedParts r.step r.assignments) (sym (rest-rewound sv to u s))
        (
          omega (
            arith,
            parts.counted,
            parts.in_range (omega (arith, h.0)),
            h.0,
            ap length split,
            length-append (reverse u.stack) parts.popped,
          ),
          Numbered-append_left 1 (reverse u.stack) parts.popped (subst (Numbered 1) split h.1),
        )
    where
      parts : Split to s.step [] (reverse s.assignments) u
      parts = unwind-Split to s.step [] (reverse s.assignments) u e

      split : s.assignments ≡ reverse u.stack ++ parts.popped
      split = sym (reverse-reverse s.assignments) ∙ parts.split

  IsCounted-Preserved : Preserved sv IsCounted
  unfolding decision derivation
  IsCounted-Preserved = record {
    on_decision = λ pkg version s.
        assign-IsCounted
          (record {
            step = s.step;
            level = u16_add_one s.level;
            ty = AssignmentType.decision version;
            pkg = pkg;
          })
          (record s { level = u16_add_one s.level }) (decision sv pkg version s) refl refl refl;
    on_derivation = λ icix inc u s known term.
        assign-IsCounted
          (record {
            step = s.step;
            level = s.level;
            ty = AssignmentType.derivation (sv.complement u.con) icix u.positive;
            pkg = u.pkg;
          })
          s (derivation sv u.pkg (sv.complement u.con) icix u.positive s) refl refl refl;
    on_backtrack = rewound-IsCounted;
    on_learn = λ ic s sourced h. h;
    on_index = λ icix ic s known h. h;
    on_retriever = λ r s h. h;
  }

  -- Wherever the main loop stops, the step counter is the number of assignments plus one, and the
  -- assignments bear the steps 1, 2, 3 and so on, all modulo 2 ^ 16.
  pub decide_all-IsCounted :
      (ret : Retriever P V C R) (fuel : ℕ) (r : R)
      → Supplies ret
      → Keeps IsCounted (decide_all sv ret fuel (new r))
  unfolding new
  decide_all-IsCounted ret fuel r supplied =
      decide_all-Keeps sv ret IsCounted IsCounted-Preserved supplied fuel (new r) (refl, tt)
