-- ===== src/Resolve/Solve.antt =====
-- resolve/mod.rs, `propagate` and the main loop of `solve_loop`.
use elba.Prelude.{ℕ, zero, suc, Option, none, some, List, [], ◌∷◌, Eq, reverse}
use elba.Prelude.IndexMap.{get}
use elba.Prelude.IndexSet.{insert, pop}
use elba.Prelude.Outcome.{M, unfinished, panic, ask, on_option, ◌>>=◌, ◌>>◌, pure}
use elba.Semver.{Semver}
use elba.Retriever.{Retriever}
use elba.Resolve.Choose.{choose_pkg_version}
use elba.Resolve.Conflict.{resolve_conflict}
use elba.Resolve.Incompat.{IncompatMatch, satisfied, almost, contradicted, root}
use elba.Resolve.Propagate.{propagate_incompat}
use elba.Resolve.State.{Resolver, incompatibility}

module _ {P V C R : Type 0} ⦃e : Eq P⦄ (sv : Semver V C) (ret : Retriever P V C R) where
  -- `unreachable!()` is the second clause.
  abbrev pub restart : IncompatMatch P → M (Resolver P V C R) (List P)
  restart (almost name) = pure (name ∷ [])
  restart _ = λ s. panic

  -- The `match` of the loop's body; `again` is the rest of the loop, which a conflict breaks off.
  unfoldable pub on_match :
      ℕ
      → ℕ
      → (List P → M (Resolver P V C R) (List P))
      → List P
      → IncompatMatch P
      → M (Resolver P V C R) (List P)
  on_match fuel icix again changed (almost name) = again (insert name changed)
  on_match fuel icix again changed contradicted = again changed
  on_match fuel icix again changed satisfied = do
    cause ← resolve_conflict sv ret fuel icix
    res ← propagate_incompat sv cause
    restart res

  -- The loop `'f` over the incompatibilities of one package, newest first: the new `changed`.
  unfoldable pub propagate_ixs : ℕ → List ℕ → List P → M (Resolver P V C R) (List P)
  unfolding on_match
  propagate_ixs fuel [] changed = pure changed
  propagate_ixs fuel (icix ∷ icixs) changed = do
    res ← propagate_incompat sv icix
    on_match fuel icix (λ ps. propagate_ixs fuel icixs ps) changed res

  unfoldable pub propagate_loop : ℕ → ℕ → List P → M (Resolver P V C R) (Unit {0})
  unfolding propagate_ixs
  propagate_loop conflict_fuel zero changed = λ s. unfinished s
  propagate_loop conflict_fuel (suc fuel) changed =
      let next = λ (ps : List P). propagate_loop conflict_fuel fuel ps in
      on_option (pop changed) (pure tt) λ (rest, pkg). do
        s ← ask (λ s. s)
        on_option (get pkg s.incompat_ixs) (next rest)
            λ icixs. do changed' ← propagate_ixs conflict_fuel (reverse icixs) rest; next changed'

  unfoldable pub propagate : ℕ → P → M (Resolver P V C R) (Unit {0})
  unfolding propagate_loop
  propagate fuel pkg = propagate_loop fuel fuel (pkg ∷ [])

  -- `while let Some(n) = next`
  unfoldable pub decide_loop : ℕ → ℕ → Option P → M (Resolver P V C R) (Unit {0})
  unfolding propagate choose_pkg_version
  decide_loop inner zero next = λ s. unfinished s
  decide_loop inner (suc fuel) none = pure tt
  decide_loop inner (suc fuel) (some n) = do
    propagate inner n
    next ← choose_pkg_version sv ret
    decide_loop inner fuel next

  -- `solve_loop` up to the building of the tree.
  unfoldable pub decide_all : ℕ → M (Resolver P V C R) (Unit {0})
  unfolding decide_loop
  decide_all fuel = do
    s ← ask (λ s. s)
    let summary = ret.root s.retriever
    incompatibility ((summary.id, sv.complement (sv.of_version summary.version)) ∷ []) root
    decide_loop fuel fuel (some summary.id)
