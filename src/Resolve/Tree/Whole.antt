-- ===== src/Resolve/Tree/Whole.antt =====
-- The end of `solve_loop`: the graph of what is needed, as a specification, and the graph at the end of
-- the search.
use elba.Prelude.{
  ℕ, Bool, true, false, ◌&&◌, some, List, [], ◌∷◌, ◌≡◌, refl, sym, ap, subst, ◌∙◌, ◌⊎◌, inl, inr,
  arith, any_of, All, Eq, ◌==◌, Bool-cases, some_inj,
}
use elba.Prelude.IndexMap.{get, get_cong}
use elba.Prelude.Members.{contains}
use elba.Graph.{Petgraph}
use elba.Graph.Building.{Building, Represents, Represents-edges}
use elba.Lockfile.Read.{lists}
use elba.Resolve.Tree.{summary_eq}
use elba.Resolve.Tree.Step.{IsGrown, entries}

module _ {T G : Type 0} ⦃e : Eq T⦄ (pg : Petgraph T G) (needs : T → List T) where
  -- The graph of what is needed: a node for each package, with edges to all that it needs.
  pub record IsTree (root : T) (g : G) : Type 0 where
    pub unique :
        (i j : ℕ) (u v : T)
        → pg.weight i g ≡ some u
        → pg.weight j g ≡ some v
        → (u == v) ≡ true
        → i ≡ j
    pub has_root : (i : ℕ) × (w : T) × (pg.weight i g ≡ some w) × ((w == root) ≡ true)
    pub edges :
        (i j : ℕ) (u v : T)
        → pg.weight i g ≡ some u
        → pg.weight j g ≡ some v
        → contains j (pg.outgoing i g) ≡ any_of (λ d. d == v) (needs u)
    pub closed :
        (i : ℕ) (u d : T)
        → pg.weight i g ≡ some u
        → any_of (λ x. x == d) (needs u) ≡ true
        → (j : ℕ) × (w : T) × (pg.weight j g ≡ some w) × ((w == d) ≡ true)

  module _ (b : Building T G) (r : T → T → Bool) (h : Represents pg r b) where
    same_node :
        (i j : ℕ) (u v : T)
        → pg.weight i b.graph ≡ some u
        → pg.weight j b.graph ≡ some v
        → (u == v) ≡ true
        → i ≡ j
    same_node i j u v at_i at_j same =
        some_inj (sym (h.found i u at_i) ∙ get_cong u v b.set same ∙ h.found j v at_j)

    lists-entries :
        (finished : List T)
        → All (λ x. (k : ℕ) × (pg.weight k b.graph ≡ some x)) finished
        → (i : ℕ) (u v : T) → pg.weight i b.graph ≡ some u
        → lists (entries needs finished) u v
          ≡ (any_of (λ x. x == u) finished && any_of (λ d. d == v) (needs u))
    lists-entries [] all i u v at = refl
    lists-entries (x ∷ xs) ((k, at_x), all) i u v at = elim (Bool-cases (x == u)) [
      | inl same ↦
          let eq : k ≡ i = same_node k i x u at_x at same in
          let xu : x ≡ u =
            some_inj (sym at_x ∙ subst (λ z. pg.weight z b.graph ≡ some u) (sym eq) at) in
          let rest = lists-entries xs all i u v at in
          let needed : any_of (λ d. d == v) (needs x) ≡ any_of (λ d. d == v) (needs u) =
            ap (λ z. any_of (λ d. d == v) (needs z)) xu in
          ground (arith, same, rest, needed)
      | inr other ↦ rw other (lists-entries xs all i u v at)
    ]

  pub grown-IsTree :
      (root : T) (finished : List T) (b : Building T G)
      → IsGrown pg needs finished (record { built = b; queue = [] })
      → ((i : ℕ) × (get root b.set ≡ some i))
      → IsTree root b.graph
  grown-IsTree root finished b h (n, at_root) =
      let r = lists (entries needs finished) in
      let over =
        λ (i : ℕ) (u : T) (at : pg.weight i b.graph ≡ some u). all_done i u (h.waiting i u at) in
      let edge = λ (i : ℕ) (u v : T) (at : pg.weight i b.graph ≡ some u).
        lists-entries b r h.represents finished h.exact i u v at
        ∙ ap (λ z. z && any_of (λ d. d == v) (needs u)) (over i u at) in
      record {
        unique = same_node b r h.represents;
        has_root = let (w, at, eq) = h.represents.placed root n at_root in (n, w, at, eq);
        edges = λ i j u v at_i at_j.
            Represents-edges pg r b h.represents i j u v at_i at_j ∙ edge i u v at_i;
        closed = λ i u d at_i m.
            let (i', j, gu, gd, c) = h.represents.complete u d (edge i u d at_i ∙ m) in
            let (w, at, eq) = h.represents.placed d j gd in (j, w, at, eq);
      }
    where
      all_done :
          (i : ℕ) (u : T)
          → (false ≡ true) ⊎ (any_of (λ x. x == u) finished ≡ true)
          → any_of (λ x. x == u) finished ≡ true
      all_done i u (inl m) = cc
      all_done i u (inr fin) = fin
