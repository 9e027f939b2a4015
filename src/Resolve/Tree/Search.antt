-- ===== src/Resolve/Tree/Search.antt =====
-- The run of the search at the end of `solve_loop`.
use elba.Prelude.{
  ℕ, zero, suc, ◌+◌, ◌<◌, true, false, some, List, [], ◌∷◌, ◌≡◌, refl, sym, ap, subst, ◌∙◌, inl,
  inr, arith, any_of, length, get_elem?, Eq, ◌==◌, Bool-cases, some_inj,
}
use elba.Prelude.IndexMap.{IndexMap, get, insert}
use elba.Prelude.Outcome.{ok, done, Returns}
use elba.Graph.{Petgraph, PetgraphLaws}
use elba.Graph.Building.{Building, node_of, node_of-Placed, empty-Represents}
use elba.Lockfile.Read.{add_deps-keeps}
use elba.Retriever.{Retriever}
use elba.Resolve.Incompat.{Incompatibility, Summary}
use elba.Resolve.State.{Resolver}
use elba.Resolve.Tree.{Growing, extend, summary_eq, add_incs, expand, tree_loop, solve_tree}
use elba.Resolve.Tree.Grown.{
  extend_all, extend_all-built, extend_all-work_left, work_left, any_of-weaken, tally-length,
  is_unset,
}
use elba.Resolve.Tree.Step.{IsGrown, step-IsGrown, extend_all-weights}
use elba.Resolve.Tree.Whole.{IsTree, grown-IsTree}

module _ {P V C R G : Type 0} ⦃e : Eq P⦄ ⦃v : Eq V⦄ (pg : Petgraph (Summary P V) G)
    (ret : Retriever P V C R) where
  -- The incompatibilities are those of the dependencies `ds`, all of which are decided on.
  abbrev pub AreDecided :
      IndexMap P V → R → List (Incompatibility P C) → List (Summary P V) → Type 0
  AreDecided decisions r [] [] = Unit
  AreDecided decisions r [] (d ∷ ds) = ⊥
  AreDecided decisions r (inc ∷ incs) [] = ⊥
  AreDecided decisions r (inc ∷ incs) (d ∷ ds) =
      ((x : P × C) × (get_elem? inc.deps 1 ≡ some x)
        × (get x.0 decisions ≡ some d.version)
        × (ret.mapped r x.0 ≡ d.id))
      × AreDecided decisions r incs ds

  add_incs-run :
      (pid : ℕ) (incs : List (Incompatibility P C)) (ds : List (Summary P V))
      (t : Growing (Summary P V) G) (s : Resolver P V C R)
      → AreDecided s.decisions s.retriever incs ds
      → add_incs pg ret pid incs t s ≡ done (extend_all pg pid ds t) s
  unfolding add_incs extend_all
  add_incs-run pid [] [] t s h = refl
  add_incs-run pid [] (d ∷ ds) t s h = absurd h
  add_incs-run pid (inc ∷ incs) [] t s h = absurd h
  add_incs-run pid (inc ∷ incs) (d ∷ ds) t s ((x, at, ver, id), h) =
      rw (at, ver, id) (add_incs-run pid incs ds (extend pg pid d t) s h)

  -- What the retriever answers for the packages of `all` in the states that satisfy `I`, which it does
  -- not leave: each needs packages of `all`, and they are decided on.
  pub record IsDecided (I : R → Type 0) (decisions : IndexMap P V) (all : List (Summary P V))
      (needs : Summary P V → List (Summary P V)) : Type 0 where
    pub incs : Summary P V → List (Incompatibility P C)
    pub answers :
        (u : Summary P V) (r : R)
        → I r
        → any_of (λ a. a == u) all ≡ true
        → (ret.incompats u u.id r).0 ≡ ok (incs u)
    pub stays :
        (u : Summary P V) (r : R)
        → I r
        → any_of (λ a. a == u) all ≡ true
        → I (ret.incompats u u.id r).1
    pub decided :
        (u : Summary P V) (r : R)
        → I r
        → any_of (λ a. a == u) all ≡ true
        → AreDecided decisions r (incs u) (needs u)
    pub within :
        (u d : Summary P V)
        → any_of (λ a. a == u) all ≡ true
        → any_of (λ x. x == d) (needs u) ≡ true
        → any_of (λ a. a == d) all ≡ true

  module _ (laws : PetgraphLaws pg) (I : R → Type 0) (decisions : IndexMap P V)
      (all : List (Summary P V)) (needs : Summary P V → List (Summary P V))
      (decided : IsDecided I decisions all needs) where
    expand-run :
        (pid : ℕ) (t : Growing (Summary P V) G) (s : Resolver P V C R) (u : Summary P V)
        → s.decisions ≡ decisions
        → I s.retriever
        → pg.weight pid t.built.graph ≡ some u
        → any_of (λ a. a == u) all ≡ true
        → expand pg ret pid t s
          ≡ done
              (extend_all pg pid (needs u) t)
              (record s { retriever = (ret.incompats u u.id s.retriever).1 })
    unfolding expand
    expand-run pid t s u same i at m =
        let s' = record s { retriever = (ret.incompats u u.id s.retriever).1 } in
        rw (at, decided.answers u s.retriever i m)
          (add_incs-run pid (decided.incs u) (needs u) t s' (
            subst (λ ds. AreDecided ds s'.retriever (decided.incs u) (needs u)) (sym same)
              (decided.decided u s'.retriever (decided.stays u s.retriever i m) m)))

    -- All nodes are packages of `all`.
    abbrev IsWithin : Building (Summary P V) G → Type 0
    IsWithin b =
        (i : ℕ) (u : Summary P V) → pg.weight i b.graph ≡ some u → any_of (λ a. a == u) all ≡ true

    step-IsWithin :
        (pid : ℕ) (rest : List ℕ) (b : Building (Summary P V) G) (u : Summary P V)
        → IsWithin b
        → pg.weight pid b.graph ≡ some u
        → IsWithin (extend_all pg pid (needs u) (record { built = b; queue = rest })).built
    step-IsWithin pid rest b u w at i x at_x =
        elim (extend_all-weights pg laws pid (needs u) (record { built = b; queue = rest }) i x
          at_x) [ inl old ↦ w i x old | inr m ↦ decided.within u x (w pid u at) m ]

    tree_loop-IsTree :
        (root : Summary P V) (fuel : ℕ) (finished : List (Summary P V))
        (b : Building (Summary P V) G) (q : List ℕ) (s : Resolver P V C R)
        → s.decisions ≡ decisions
        → I s.retriever
        → IsGrown pg needs finished (record { built = b; queue = q })
        → IsWithin b
        → ((n : ℕ) × (get root b.set ≡ some n))
        → work_left pg all (record { built = b; queue = q }) < fuel
        → Returns
            (λ g s'. IsTree pg needs root g × (s'.decisions ≡ decisions) × I s'.retriever)
            (tree_loop pg ret fuel (record { built = b; queue = q }) s)
    unfolding tree_loop
    tree_loop-IsTree root zero finished b q s same i h w at l = absurd (omega (arith, l))
    tree_loop-IsTree root (suc fuel) finished b [] s same i h w at l =
        (grown-IsTree pg needs root finished b h at, same, i)
    tree_loop-IsTree root (suc fuel) finished b (pid ∷ rest) s same i h w (n, at) l =
        let t : Growing (Summary P V) G = record { built = b; queue = rest } in
        let (u, at_u) = h.queued pid (ground arith) in
        let t' = extend_all pg pid (needs u) t in
        let less =
          extend_all-work_left pg all pid (needs u) t
            (λ d m. decided.within u d (w pid u at_u) m) in
        rw (expand-run pid t s u same i at_u (w pid u at_u)) (
          tree_loop-IsTree root fuel (u ∷ finished) t'.built t'.queue
            (record s { retriever = (ret.incompats u u.id s.retriever).1 }) same
            (decided.stays u s.retriever i (w pid u at_u))
            (step-IsGrown pg needs laws finished pid rest b u h at_u)
            (step-IsWithin pid rest b u w at_u)
            (
              n,
              ap (λ x. get root x.set) (extend_all-built pg pid (needs u) t)
                  ∙ add_deps-keeps pg laws pid (needs u) b root n at,
            )
            (omega (arith, less, l)))

    start-IsGrown :
        (root : Summary P V)
        → any_of (λ a. a == root) all ≡ true
        → (let (n, b) = node_of pg root (record { graph = pg.empty; set = [] }) in
            IsGrown pg needs [] (record { built = b; queue = n ∷ [] })
            × IsWithin b
            × (get root b.set ≡ some n))
    unfolding get insert
    start-IsGrown root m =
        let start : Building (Summary P V) G = record { graph = pg.empty; set = [] } in
        let (n, b) = node_of pg root start in
        let (h, at, kept) =
          node_of-Placed pg laws (λ u v. false) root start (empty-Represents pg laws) in
        let only =
          λ (i : ℕ) (u : Summary P V) (at_u : pg.weight i b.graph ≡ some u). h.found i u at_u in
        (
          record {
            represents = h;
            waiting = λ i u at_u. elim (Bool-cases (root == u)) [
              | inl same ↦
                  let eq : n ≡ i = some_inj (rw same at (only i u at_u)) in inl (ground (arith, eq))
              | inr other ↦ cc (rw other at (only i u at_u))
            ];
            queued = λ i q.
                let eq : n ≡ i = ground (arith, q) in
                let (w, at_w, x) = h.placed root n at in
                (w, subst (λ k. pg.weight k b.graph ≡ some w) eq at_w);
            exact = tt;
          },
          λ i u at_u. elim (Bool-cases (root == u)) [
            | inl same ↦
                any_of-weaken (λ a. a == root) (λ a. a == u) all
                  (λ a r. summary_eq.beq_cong a root u r ∙ same) m
            | inr other ↦ cc (rw other at (only i u at_u))
          ],
          at,
        )

  -- From a state of the retriever in which it answers for n packages, and goes on to, each of them needing
  -- packages among them that have been decided on, the graph is made with n + 2 rounds, without an error or a
  -- panic, and with the decisions left as they were: it has a node for the root and for whatever a node
  -- needs, none twice, and the edges from a node are to what it needs.
  pub solve_tree-IsTree :
      PetgraphLaws pg
      → (I : R → Type 0) (all : List (Summary P V)) (needs : Summary P V → List (Summary P V))
        (fuel : ℕ) (s : Resolver P V C R)
      → IsDecided I s.decisions all needs
      → I s.retriever
      → any_of (λ a. a == ret.root s.retriever) all ≡ true
      → length all + 1 < fuel
      → Returns
          (λ g s'.
            IsTree pg needs (ret.root s.retriever) g
            × (s'.decisions ≡ s.decisions)
            × I s'.retriever)
          (solve_tree pg ret fuel s)
  unfolding solve_tree
  solve_tree-IsTree laws I all needs fuel s decided i m l =
      let root = ret.root s.retriever in
      let (n, b) = node_of pg root (record { graph = pg.empty; set = [] }) in
      let (h, w, at) = start-IsGrown laws I s.decisions all needs decided root m in
      tree_loop-IsTree laws I s.decisions all needs decided root fuel [] b (n ∷ []) s refl i h w
        (n, at) (omega (arith, l, tally-length (is_unset b.set) all))
