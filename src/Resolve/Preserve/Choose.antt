-- ===== src/Resolve/Preserve/Choose.antt =====
-- The rule of `Preserve` for the choice of a version.
use elba.Prelude.{ℕ, Bool, false, ◌||◌, List, [], ◌∷◌, Eq, All}
use elba.Prelude.Outcome.{
  Result, Keeps, Keeps-and_then, Keeps-if, Keeps-try, on_result, Keeps-on_option, Keeps-on_result,
}
use elba.Semver.{Semver}
use elba.Retriever.{Retriever}
use elba.Resolve.Incompat.{
  Incompatibility, IncompatibilityCause, derived_from, dependency, root, unavailable,
}
use elba.Resolve.Choose.{
  next_package, add_incompats, add_version, add_package, choose_pkg_version, conflicts,
}
use elba.Resolve.Preserve.{Preserved, incompatibility-Keeps, IsExternal, IsSourced, Supplies}
use elba.Resolve.State.{Resolver, incompatibility}

External-IsSourced : (n : ℕ) (k : IncompatibilityCause) → IsExternal k → IsSourced n k
External-IsSourced n dependency h = tt
External-IsSourced n root h = tt
External-IsSourced n unavailable h = tt
External-IsSourced n (derived_from l r) h = elim h [ ]

module _ {P V C R : Type 0} ⦃e : Eq P⦄ (sv : Semver V C) (ret : Retriever P V C R)
    (I : Resolver P V C R → Type 0) (kept : Preserved sv I) (supplied : Supplies ret) where
  add_incompats-Keeps :
      (id : P) (conflict : Bool) (ics : List (Incompatibility P C)) (s : Resolver P V C R)
      → All (λ ic. IsExternal ic.cause) ics
      → I s
      → Keeps I (add_incompats sv ret id conflict ics s)
  unfolding add_incompats
  add_incompats-Keeps id conflict [] s ext h = h
  add_incompats-Keeps id conflict (ic ∷ ics) s ext h =
      Keeps-and_then I (incompatibility ic.deps ic.cause s) _
        (incompatibility-Keeps sv I kept ic.deps ic.cause s (External-IsSourced _ ic.cause ext.0) h)
        (λ _ t. add_incompats-Keeps id (conflict || conflicts sv ret s id ic.deps) ics t ext.1)

  add_version-Keeps :
      (pkg : P) (best : V) (s : Resolver P V C R) → I s → Keeps I (add_version sv ret pkg best s)
  unfolding add_version
  add_version-Keeps pkg best s h =
      let asked = ret.incompats (record { id = pkg; version = best }) pkg s.retriever in
      let s' : Resolver P V C R = record s { retriever = asked.1 } in
      let h' : I s' = kept.on_retriever asked.1 s h in
      Keeps-try I asked.0 s' _ h' λ ics e.
        Keeps-and_then I (add_incompats sv ret pkg false ics s') _
          (add_incompats-Keeps pkg false ics s' (supplied _ pkg s.retriever ics e) h')
          λ conflict t i. Keeps-if I conflict t _ _ i (kept.on_decision pkg best t i)

  add_package-Keeps :
      (pkg : P) (con : C) (s : Resolver P V C R) → I s → Keeps I (add_package sv ret pkg con s)
  unfolding add_package
  add_package-Keeps pkg con s h =
      Keeps-and_then I (on_result best.0 _ _ s') _
        (Keeps-on_result I best.0 s' _ _ (λ version _. add_version-Keeps pkg version s' h')
          λ _.
            Keeps-and_then I (incompatibility ((pkg, con) ∷ []) unavailable s') _
              (incompatibility-Keeps sv I kept ((pkg, con) ∷ []) unavailable s' tt h') (λ _ t i. i))
        (λ _ t i. i)
    where
      best : Result V × R
      best = ret.best pkg con s.retriever

      s' : Resolver P V C R
      s' = record s { retriever = best.1 }

      h' : I s'
      h' = kept.on_retriever best.1 s h

  pub choose_pkg_version-Keeps :
      (s : Resolver P V C R) → I s → Keeps I (choose_pkg_version sv ret s)
  unfolding choose_pkg_version
  choose_pkg_version-Keeps s h =
      Keeps-on_option I (next_package ret s) s _ _ h (λ (pkg, con) _. add_package-Keeps pkg con s h)
