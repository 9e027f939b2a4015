-- ===== src/Resolve/Conflict.antt =====
-- resolve/mod.rs, `is_failure` and `resolve_conflict`: from a satisfied incompatibility to the root
-- cause of the conflict.
use elba.Prelude.{
  ℕ, zero, suc, max, Bool, true, false, not, ◌&&◌, Option, none, some, List, [], ◌∷◌, ◌++◌, Eq,
  ◌==◌, ltb, length, get_elem?, keep, if◌then◌else◌,
}
use elba.Prelude.IndexMap.{IndexMap, insert}
use elba.Prelude.Outcome.{
  M, unfinished, unwrap, ask, modify, throw, ◌>>=◌, ◌>>◌, pure, no_conflict_res, on_option,
}
use elba.Semver.{Semver}
use elba.Retriever.{Retriever}
use elba.Resolve.Assignment.{Assignment, cause, constraint}
use elba.Resolve.Incompat.{Incompatibility, derived_from}
use elba.Resolve.Backtrack.{backtrack}
use elba.Resolve.Satisfier.{satisfier}
use elba.Resolve.State.{Resolver, incompat_ixs}

-- The variables of the loop over the terms of one incompatibility.
pub record Search (P V C : Type 0) : Type 0 where
  pub most_recent_term : Option (P × C)
  pub most_recent_satisfier : Option (Assignment P V C)
  pub difference : Option (P × C)
  pub previous_satisfier_level : ℕ

abbrev pub search_start : {P V C : Type 0} → Search P V C
search_start = record {
  most_recent_term = none;
  most_recent_satisfier = none;
  difference = none;
  previous_satisfier_level = 1;
}

module _ {P C : Type 0} ⦃e : Eq P⦄ where
  -- `collect` into an `IndexMap`: a later entry for a key overwrites an earlier one.
  unfoldable pub collect : IndexMap P C → List (P × C) → IndexMap P C
  collect m [] = m
  collect m ((k, c) ∷ entries) = collect (insert k c m) entries

  unfoldable pub is_failure_of : P → IndexMap P C → Bool
  is_failure_of root [] = true
  is_failure_of root ((p, c) ∷ []) = p == root
  is_failure_of root _ = false

module _ {P V C : Type 0} ⦃e : Eq P⦄ (sv : Semver V C) where
  abbrev pub same_term : P × C → P × C → Bool
  same_term (p, c) (q, d) = p == q && sv.con_eq c d

  -- The `match most_recent_satisfier` of the loop's body.
  unfoldable pub compare_satisfier : P × C → Assignment P V C → Search P V C → Search P V C
  compare_satisfier term satisfier v = elim v.most_recent_satisfier [
    | none ↦ record v { most_recent_term = some term; most_recent_satisfier = some satisfier }
    | some a ↦
        if ltb a.step satisfier.step
        then record {
          most_recent_term = some term;
          most_recent_satisfier = some satisfier;
          difference = none;
          previous_satisfier_level = max v.previous_satisfier_level a.level;
        }
        else record v { previous_satisfier_level = max v.previous_satisfier_level satisfier.level }
  ]

  -- What of the satisfier's constraint the term does not cover, if that is anything.
  unfoldable pub difference_of : P × C → Assignment P V C → Option (P × C)
  difference_of (pkg, c) satisfier =
      let diff = sv.difference (constraint sv satisfier) c in
      if sv.con_eq diff sv.empty then none else some (pkg, diff)

  -- `new_terms`: the resolvent of the incompatibility and of the satisfier's cause.
  unfoldable pub new_terms : P × C → P → Option (P × C) → IndexMap P C → IndexMap P C → IndexMap P C
  unfolding collect
  new_terms most_recent_term satisfier_pkg difference i cause =
      let terms = collect [] (
        keep (λ t. not (same_term t most_recent_term)) i
        ++ keep (λ t. not (t.0 == satisfier_pkg)) cause) in
      elim difference [ none ↦ terms | some (pkg, diff) ↦ insert pkg (sv.complement diff) terms ]

module _ {P V C R : Type 0} ⦃e : Eq P⦄ (sv : Semver V C) where
  -- The difference and the level that satisfies it; `none` is an `unwrap` that panics.
  unfoldable pub with_difference :
      Resolver P V C R → P → Option (P × C) → Search P V C → Option (Search P V C)
  with_difference s pkg none v = some (record v { difference = none })
  with_difference s pkg (some (_, diff)) v = elim (satisfier sv s pkg (sv.complement diff)) [
    | none ↦ none
    | some below ↦ some (record v {
      difference = some (pkg, diff);
      previous_satisfier_level = max v.previous_satisfier_level below.level;
    })
  ]

  -- `if most_recent_term == (pkg, c)`
  unfoldable pub update_difference : Resolver P V C R → P × C → Search P V C → Option (Search P V C)
  unfolding with_difference
  update_difference s (pkg, c) v = elim v.most_recent_satisfier [
    | none ↦ none
    | some mrs ↦ elim v.most_recent_term [
      | none ↦ none
      | some mrt ↦
          if same_term sv mrt (pkg, c)
          then with_difference s pkg (difference_of sv mrt mrs) v
          else some v
    ]
  ]

  -- The `for` loop over the terms.
  unfoldable pub search_terms :
      Resolver P V C R → IndexMap P C → Search P V C → Option (Search P V C)
  unfolding compare_satisfier difference_of update_difference
  search_terms s [] v = some v
  search_terms s ((pkg, c) ∷ deps) v = elim (satisfier sv s pkg c) [
    | none ↦ none
    | some a ↦ elim (update_difference s (pkg, c) (compare_satisfier sv (pkg, c) a v)) [
      | none ↦ none
      | some v' ↦ search_terms s deps v'
    ]
  ]

  -- The two ways on from the search: back to a level, or on with the resolvent.
  unfoldable pub return_to : ℕ → ℕ → Bool → M (Resolver P V C R) ℕ
  return_to level inc new_incompatibility = do
    backtrack sv level
    if new_incompatibility then incompat_ixs inc else pure tt
    pure inc

  unfoldable pub resolvent : ℕ → ℕ → Incompatibility P C → Search P V C → M (Resolver P V C R) ℕ
  unfolding new_terms
  resolvent inc cause_ix i v = do
    s ← ask (λ s. s)
    mrs ← unwrap v.most_recent_satisfier
    mrt ← unwrap v.most_recent_term
    cause ← unwrap (get_elem? s.incompats cause_ix)
    let terms = new_terms sv mrt mrs.pkg v.difference i.deps cause.deps
    let new_i : Incompatibility P C = record { deps = terms; cause = derived_from inc cause_ix }
    modify (λ s. record s { incompats = s.incompats ++ new_i ∷ [] })
    pure (length s.incompats)

module _ {P V C R : Type 0} ⦃e : Eq P⦄ (sv : Semver V C) (ret : Retriever P V C R) where
  unfoldable pub is_failure : Resolver P V C R → Incompatibility P C → Bool
  unfolding is_failure_of
  is_failure s inc = is_failure_of (ret.root s.retriever).id inc.deps

  -- The end of one round, with the most recent satisfier: return, or go on with the resolvent.
  unfoldable pub resolve_on :
      (ℕ → M (Resolver P V C R) ℕ)
      → ℕ
      → Bool
      → Incompatibility P C
      → Search P V C
      → Assignment P V C
      → M (Resolver P V C R) ℕ
  unfolding return_to resolvent
  resolve_on again inc new_incompatibility i v mrs =
      let back = return_to sv v.previous_satisfier_level inc new_incompatibility in
      on_option (cause mrs) back λ cause_ix.
        if ltb v.previous_satisfier_level mrs.level
        then back
        else (do inc' ← resolvent sv inc cause_ix i v; again inc')

  -- One round of the `while` loop of `resolve_conflict`; `again` is the next one.
  unfoldable pub resolve_round : (ℕ → M (Resolver P V C R) ℕ) → ℕ → Bool → M (Resolver P V C R) ℕ
  unfolding is_failure search_terms resolve_on
  resolve_round again inc new_incompatibility = do
    s ← ask (λ s. s)
    i ← unwrap (get_elem? s.incompats inc)
    let go = do
      v ← unwrap (search_terms sv s i.deps search_start)
      mrs ← unwrap v.most_recent_satisfier
      resolve_on again inc new_incompatibility i v mrs
    if is_failure s i then throw no_conflict_res else go

  unfoldable pub resolve_loop : ℕ → ℕ → Bool → M (Resolver P V C R) ℕ
  unfolding resolve_round
  resolve_loop zero inc new_incompatibility = λ s. unfinished s
  resolve_loop (suc fuel) inc new_incompatibility =
      resolve_round (λ inc'. resolve_loop fuel inc' true) inc new_incompatibility

  unfoldable pub resolve_conflict : ℕ → ℕ → M (Resolver P V C R) ℕ
  unfolding resolve_loop
  resolve_conflict fuel inc = resolve_loop fuel inc false
