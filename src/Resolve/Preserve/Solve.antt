-- ===== src/Resolve/Preserve/Solve.antt =====
-- The rule of `Preserve` for propagation and for the resolver's main loop.
use elba.Prelude.{ℕ, zero, suc, Option, none, some, List, [], ◌∷◌, Eq, reverse}
use elba.Prelude.IndexMap.{get}
use elba.Prelude.IndexSet.{pop, insert}
use elba.Prelude.Outcome.{M, Keeps, Keeps-and_then, Keeps-on_option}
use elba.Semver.{Semver}
use elba.Retriever.{Retriever}
use elba.Resolve.Incompat.{IncompatMatch, satisfied, almost, contradicted, root}
use elba.Resolve.Choose.{choose_pkg_version}
use elba.Resolve.Conflict.{resolve_conflict}
use elba.Resolve.Propagate.{propagate_incompat}
use elba.Resolve.Solve.{
  on_match, restart, propagate_ixs, propagate_loop, propagate, decide_loop, decide_all,
}
use elba.Resolve.Preserve.{Preserved, Supplies, incompatibility-Keeps, propagate_incompat-Keeps}
use elba.Resolve.Preserve.Choose.{choose_pkg_version-Keeps}
use elba.Resolve.Preserve.Conflict.{resolve_conflict-Keeps}
use elba.Resolve.State.{Resolver, incompatibility}

module _ {P V C R : Type 0} ⦃e : Eq P⦄ (sv : Semver V C) (ret : Retriever P V C R)
    (I : Resolver P V C R → Type 0) (kept : Preserved sv I) (supplied : Supplies ret) where
  restart-Keeps : (r : IncompatMatch P) (s : Resolver P V C R) → I s → Keeps I (restart sv ret r s)
  restart-Keeps satisfied s h = tt
  restart-Keeps (almost p) s h = h
  restart-Keeps contradicted s h = tt

  on_match-Keeps :
      (fuel icix : ℕ) (again : List P → M (Resolver P V C R) (List P)) (changed : List P)
      (r : IncompatMatch P)
      → ((ps : List P) (s : Resolver P V C R) → I s → Keeps I (again ps s))
      → (s : Resolver P V C R) → I s
      → Keeps I (on_match sv ret fuel icix again changed r s)
  unfolding on_match
  on_match-Keeps fuel icix again changed (almost p) next s h = next (insert p changed) s h
  on_match-Keeps fuel icix again changed contradicted next s h = next changed s h
  on_match-Keeps fuel icix again changed satisfied next s h =
      Keeps-and_then I (resolve_conflict sv ret fuel icix s) _
        (resolve_conflict-Keeps sv ret I kept fuel icix s h)
        λ root t i.
          Keeps-and_then I (propagate_incompat sv root t) _
            (propagate_incompat-Keeps sv I kept root t i) restart-Keeps

  propagate_ixs-Keeps :
      (fuel : ℕ) (icixs : List ℕ) (changed : List P) (s : Resolver P V C R)
      → I s
      → Keeps I (propagate_ixs sv ret fuel icixs changed s)
  unfolding propagate_ixs
  propagate_ixs-Keeps fuel [] changed s h = h
  propagate_ixs-Keeps fuel (icix ∷ icixs) changed s h =
      Keeps-and_then I (propagate_incompat sv icix s) _
        (propagate_incompat-Keeps sv I kept icix s h)
        λ r.
          on_match-Keeps fuel icix (λ ps. propagate_ixs sv ret fuel icixs ps) changed r
            (λ ps. propagate_ixs-Keeps fuel icixs ps)

  propagate_loop-Keeps :
      (inner fuel : ℕ) (changed : List P) (s : Resolver P V C R)
      → I s
      → Keeps I (propagate_loop sv ret inner fuel changed s)
  unfolding propagate_loop
  propagate_loop-Keeps inner zero changed s h = h
  propagate_loop-Keeps inner (suc fuel) changed s h =
      Keeps-on_option I (pop changed) s _ _ h λ (rest, pkg) _.
        Keeps-on_option I (get pkg s.incompat_ixs) s _ _ (propagate_loop-Keeps inner fuel rest s h)
          λ icixs _.
            Keeps-and_then I (propagate_ixs sv ret inner (reverse icixs) rest s) _
              (propagate_ixs-Keeps inner (reverse icixs) rest s h)
              (λ ps. propagate_loop-Keeps inner fuel ps)

  pub propagate-Keeps :
      (fuel : ℕ) (pkg : P) (s : Resolver P V C R) → I s → Keeps I (propagate sv ret fuel pkg s)
  unfolding propagate
  propagate-Keeps fuel pkg = propagate_loop-Keeps fuel fuel (pkg ∷ [])

  decide_loop-Keeps :
      (inner fuel : ℕ) (next : Option P) (s : Resolver P V C R)
      → I s
      → Keeps I (decide_loop sv ret inner fuel next s)
  unfolding decide_loop
  decide_loop-Keeps inner zero next s h = h
  decide_loop-Keeps inner (suc fuel) none s h = h
  decide_loop-Keeps inner (suc fuel) (some n) s h =
      Keeps-and_then I (propagate sv ret inner n s) _ (propagate-Keeps inner n s h) λ _ t i.
        Keeps-and_then I (choose_pkg_version sv ret t) _
          (choose_pkg_version-Keeps sv ret I kept supplied t i) (decide_loop-Keeps inner fuel)

  -- What the primitive changes keep holds wherever the main loop stops.
  pub decide_all-Keeps :
      (fuel : ℕ) (s : Resolver P V C R) → I s → Keeps I (decide_all sv ret fuel s)
  unfolding decide_all
  decide_all-Keeps fuel s h =
      Keeps-and_then I (incompatibility _ root s) _ (incompatibility-Keeps sv I kept _ root s tt h)
        (λ _. decide_loop-Keeps fuel fuel _)
