-- ===== src/Resolve/Choose.antt =====
-- resolve/mod.rs, `choose_pkg_version`: the next package to decide, and the facts that come with it.
pub mod Fewest
use elba.Prelude.{
  ℕ, Bool, false, not, ◌||◌, Option, none, some, List, [], ◌∷◌, map, Eq, ◌==◌, ltb, all_of, keep,
  if◌then◌else◌,
}
use elba.Prelude.IndexMap.{IndexMap, contains_key}
use elba.Prelude.IndexSet.{pop}
use elba.Prelude.Outcome.{
  M, Result, ask, modify, call, try, on_option, on_result, ◌>>=◌, ◌>>◌, pure,
}
use elba.Semver.{Semver, is_subset, is_equal}
use elba.Retriever.{Retriever}
use elba.Resolve.Incompat.{Incompatibility, Summary, unavailable}
use elba.Resolve.Satisfier.{relation}
use elba.Resolve.State.{Resolver, decision, incompatibility}

module _ {K : Type 0} (count : K → ℕ) where
  -- `sort_by` is stable; the comparison is reversed, so the largest count comes first.
  unfoldable pub insert_sorted : K → List K → List K
  insert_sorted x [] = x ∷ []
  insert_sorted x (y ∷ ys) = if ltb (count x) (count y) then y ∷ insert_sorted x ys else x ∷ y ∷ ys

  unfoldable pub sort_reversed : List K → List K
  unfolding insert_sorted
  sort_reversed [] = []
  sort_reversed (x ∷ xs) = insert_sorted x (sort_reversed xs)

module _ {P V C R : Type 0} ⦃e : Eq P⦄ where
  -- Packages that have to be there and have no version yet.
  unfoldable pub unsatisfied : Resolver P V C R → List (P × C)
  unsatisfied s =
      keep (λ d. not (contains_key d.0 s.decisions))
        (map (λ (k, v). (k, v.1)) (keep (λ (k, v). v.0) s.derivations))

  unfoldable pub next_package : Retriever P V C R → Resolver P V C R → Option (P × C)
  unfolding unsatisfied sort_reversed
  next_package ret s =
      elim (pop (sort_reversed (λ d. ret.count_versions s.retriever d.0) (unsatisfied s))) [
        | none ↦ none
        | some (rest, chosen) ↦ some chosen
      ]

module _ {P V C R : Type 0} ⦃e : Eq P⦄ (sv : Semver V C) (ret : Retriever P V C R) where
  -- Whether the decision would meet every term of an incompatibility.
  unfoldable pub conflicts : Resolver P V C R → P → IndexMap P C → Bool
  unfolding relation
  conflicts s id deps =
      all_of (λ (k, v). k == id || is_subset (relation sv s k v) || is_equal (relation sv s k v))
        deps

  unfoldable pub add_incompats : P → Bool → List (Incompatibility P C) → M (Resolver P V C R) Bool
  unfolding conflicts
  add_incompats id conflict [] = pure conflict
  add_incompats id conflict (ic ∷ ics) = do
    s ← ask (λ s. s)
    incompatibility ic.deps ic.cause
    add_incompats id (conflict || conflicts s id ic.deps) ics

  abbrev pub with_retriever :
      {A : Type 0} → (R → Result A × R) → Resolver P V C R → Result A × Resolver P V C R
  with_retriever f s = let (result, r) = f s.retriever in (result, record s { retriever = r })

  unfoldable pub add_version : P → V → M (Resolver P V C R) (Unit {0})
  unfolding add_incompats
  add_version pkg best = do
    let sum : Summary P V = record { id = pkg; version = best }
    found ← call (with_retriever (ret.incompats sum pkg))
    incompats ← try found
    conflict ← add_incompats pkg false incompats
    if conflict then pure tt else modify (decision sv pkg best)

  unfoldable pub add_package : P → C → M (Resolver P V C R) (Option P)
  unfolding add_version
  add_package pkg con = do
    best ← call (with_retriever (ret.best pkg con))
    on_result best (add_version pkg)
        (λ _. do incompatibility ((pkg, con) ∷ []) unavailable; pure tt)
    pure (some pkg)

  unfoldable pub choose_pkg_version : M (Resolver P V C R) (Option P)
  unfolding next_package add_package
  choose_pkg_version = do
    s ← ask (λ s. s)
    on_option (next_package ret s) (pure none) (λ (pkg, con). add_package pkg con)
