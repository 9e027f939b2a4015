-- ===== src/Resolve/Backtrack.antt =====
-- resolve/mod.rs, `backtrack`: takes assignments off the end down to a level, and recomputes the maps
-- for the packages that lost one.
use elba.Prelude.{ℕ, Option, none, some, List, [], ◌∷◌, Eq, ltb, reverse, if◌then◌else◌}
use elba.Prelude.IndexMap.{remove}
use elba.Prelude.IndexSet.{contains, insert}
use elba.Prelude.Outcome.{M, unwrap, ask, modify, ◌>>=◌}
use elba.Semver.{Semver}
use elba.Resolve.Assignment.{Assignment}
use elba.Resolve.State.{Resolver, register, u16_sub_one}

-- The variables of the loop that pops. The end of the vector stands first.
pub record Unwound (P V C : Type 0) : Type 0 where
  pub stack : List (Assignment P V C)
  pub step : ℕ
  pub packages : List P

module _ {P V C : Type 0} ⦃e : Eq P⦄ where
  -- `pop` of an empty vector is `unwrap` of `None`.
  unfoldable pub unwind : ℕ → ℕ → List P → List (Assignment P V C) → Option (Unwound P V C)
  unwind to step packages [] = none
  unwind to step packages (last ∷ stack) =
      let rest = unwind to (u16_sub_one step) (insert last.pkg packages) stack in
      if ltb to last.level
      then rest
      else some (record { stack = last ∷ stack; step = step; packages = packages })

module _ {P V C R : Type 0} ⦃e : Eq P⦄ where
  unfoldable pub forget : List P → Resolver P V C R → Resolver P V C R
  forget [] s = s
  forget (p ∷ ps) s =
      forget ps
        (record s { decisions = remove p s.decisions; derivations = remove p s.derivations })

  -- Registers again what the packages still have.
  unfoldable pub reregister :
      Semver V C → List P → List (Assignment P V C) → Resolver P V C R → Resolver P V C R
  reregister sv packages [] s = s
  reregister sv packages (a ∷ later) s =
      reregister sv packages later (if contains a.pkg packages then register sv a s else s)

  abbrev pub rewound : Semver V C → ℕ → Unwound P V C → Resolver P V C R → Resolver P V C R
  rewound sv to u s =
      let kept = reverse u.stack in
      reregister sv u.packages kept
        (forget u.packages (record s { level = to; step = u.step; assignments = kept }))

  unfoldable pub backtrack : Semver V C → ℕ → M (Resolver P V C R) (Unit {0})
  unfolding unwind forget reregister
  backtrack sv previous_satisfier_level = do
    s ← ask (λ s. s)
    u ← unwrap (unwind previous_satisfier_level s.step [] (reverse s.assignments))
    modify (rewound sv previous_satisfier_level u)
