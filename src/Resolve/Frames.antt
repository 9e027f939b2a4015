-- ===== src/Resolve/Frames.antt =====
-- What registering and forgetting leave alone: everything but the two maps.
use elba.Prelude.{ℕ, List, [], ◌∷◌, ◌≡◌, refl, Eq, inl, inr, Bool-cases, ◌∙◌, reverse}
use elba.Prelude.IndexMap.{IndexMap, remove}
use elba.Prelude.IndexSet.{contains}
use elba.Semver.{Semver}
use elba.Resolve.Assignment.{Assignment, AssignmentType}
use elba.Resolve.Backtrack.{Unwound, forget, reregister, rewound}
use elba.Resolve.Incompat.{Incompatibility}
use elba.Resolve.State.{Resolver, register}

-- The fields other than the maps.
pub record Rest (P V C R : Type 0) : Type 0 where
  pub step : ℕ
  pub level : ℕ
  pub assignments : List (Assignment P V C)
  pub incompats : List (Incompatibility P C)
  pub incompat_ixs : IndexMap P (List ℕ)
  pub retriever : R

module _ {P V C R : Type 0} where
  abbrev pub rest : Resolver P V C R → Rest P V C R
  rest s = record {
    step = s.step;
    level = s.level;
    assignments = s.assignments;
    incompats = s.incompats;
    incompat_ixs = s.incompat_ixs;
    retriever = s.retriever;
  }

module _ {P V C R : Type 0} ⦃e : Eq P⦄ (sv : Semver V C) where
  pub rest-register :
      (a : Assignment P V C) (s : Resolver P V C R) → rest (register sv a s) ≡ rest s
  unfolding register
  rest-register a s = by_type a.ty
    where
      by_type : (ty : AssignmentType V C) → rest (register sv (record a { ty = ty }) s) ≡ rest s
      by_type (AssignmentType.decision v) = refl
      by_type (AssignmentType.derivation c cause positive) = refl

  rest-reregister :
      (ps : List P) (given : List (Assignment P V C)) (s : Resolver P V C R)
      → rest (reregister sv ps given s) ≡ rest s
  unfolding reregister
  rest-reregister ps [] s = refl
  rest-reregister ps (a ∷ later) s = elim (Bool-cases (contains a.pkg ps)) [
    | inl b ↦ rw (b, reregister) (rest-reregister ps later (register sv a s) ∙ rest-register a s)
    | inr b ↦ rw (b, reregister) (rest-reregister ps later s)
  ]

module _ {P V C R : Type 0} ⦃e : Eq P⦄ where
  rest-forget : (ps : List P) (s : Resolver P V C R) → rest (forget ps s) ≡ rest s
  unfolding forget
  rest-forget [] s = refl
  rest-forget (p ∷ ps) s =
      rest-forget ps
        (record s { decisions = remove p s.decisions; derivations = remove p s.derivations })

module _ {P V C R : Type 0} ⦃e : Eq P⦄ (sv : Semver V C) where
  pub rest-rewound :
      (to : ℕ) (u : Unwound P V C) (s : Resolver P V C R)
      → rest (rewound sv to u s)
        ≡ rest (record s { level = to; step = u.step; assignments = reverse u.stack })
  rest-rewound to u s =
      rest-reregister sv u.packages (reverse u.stack) _
      ∙ rest-forget u.packages
          (record s { level = to; step = u.step; assignments = reverse u.stack })
