-- ===== src/Resolve/Tree/Step.antt =====
-- One round of the search for the graph of the chosen packages.
use elba.Prelude.{
  ℕ, true, ◌&&◌, ◌||◌, some, List, [], ◌∷◌, ◌++◌, ◌≡◌, refl, sym, subst, ◌∙◌, ◌⊎◌, inl, inr, arith,
  eqb, any_of, All, All-map_of, Eq, ◌==◌, Bool-cases, Option-cases, some_inj,
}
use elba.Prelude.IndexMap.{get, insert}
use elba.Prelude.Members.{contains, contains-append}
use elba.Graph.{Petgraph, PetgraphLaws}
use elba.Graph.Building.{Building, node_of, Represents, Represents-same, weight-keeps, new-weight}
use elba.Lockfile.{LockedPkg, add_deps}
use elba.Lockfile.Read.{lists, add_deps-Represents}
use elba.Resolve.Tree.{Growing, extend}
use elba.Resolve.Tree.Grown.{extend_all, extend_all-built}

module _ {T G : Type 0} ⦃e : Eq T⦄ (pg : Petgraph T G) where
  -- Nodes keep their weights, and new ones wait in the queue.
  pub record Extends (t t' : Growing T G) : Type 0 where
    pub keeps :
        (i : ℕ) (u : T) → pg.weight i t.built.graph ≡ some u → pg.weight i t'.built.graph ≡ some u
    pub news :
        (i : ℕ) (u : T)
        → pg.weight i t'.built.graph ≡ some u
        → (pg.weight i t.built.graph ≡ some u) ⊎ (contains i t'.queue ≡ true)
    pub stays : (i : ℕ) → contains i t.queue ≡ true → contains i t'.queue ≡ true
    pub queued :
        (i : ℕ)
        → contains i t'.queue ≡ true
        → (contains i t.queue ≡ true) ⊎ ((u : T) × (pg.weight i t'.built.graph ≡ some u))

  Extends-same : (t : Growing T G) → Extends t t
  Extends-same t = record {
    keeps = λ i u at. at;
    news = λ i u at. inl at;
    stays = λ i m. m;
    queued = λ i m. inl m;
  }

  Extends-then : (t t' t'' : Growing T G) → Extends t t' → Extends t' t'' → Extends t t''
  Extends-then t t' t'' h k = record {
    keeps = λ i u at. k.keeps i u (h.keeps i u at);
    news = λ i u at. elim (k.news i u at) [
      | inl at' ↦ elim (h.news i u at') [ inl at0 ↦ inl at0 | inr m ↦ inr (k.stays i m) ]
      | inr m ↦ inr m
    ];
    stays = λ i m. k.stays i (h.stays i m);
    queued = λ i m. elim (k.queued i m) [
      | inl m' ↦ elim (h.queued i m') [ inl m0 ↦ inl m0 | inr (u, at) ↦ inr (u, k.keeps i u at) ]
      | inr at ↦ inr at
    ];
  }

  module _ (laws : PetgraphLaws pg) where
    extend_new-Extends :
        (pid : ℕ) (d : T) (t : Growing T G) (set : List (T × ℕ))
        → Extends t (record {
          built = record {
            graph = pg.add_edge pid (pg.add_node d t.built.graph).0 (pg.add_node d t.built.graph).1;
            set = set;
          };
          queue = t.queue ++ (pg.add_node d t.built.graph).0 ∷ [];
        })
    extend_new-Extends pid d t set =
        let n = (pg.add_node d t.built.graph).0 in
        let g = (pg.add_node d t.built.graph).1 in
        let member = contains-append t.queue (n ∷ []) in
        record {
          keeps =
              λ i u at. laws.edge_weight pid n g i ∙ weight-keeps pg laws d t.built.graph i u at;
          news = λ i u at. elim (Bool-cases (eqb i n)) [
            | inl same ↦ inr (member i ∙ ground (arith, same))
            | inr other ↦ inl (
                rw other at (
                  sym (laws.node_weight d t.built.graph i) ∙ sym (laws.edge_weight pid n g i) ∙ at))
          ];
          stays = λ i m. member i ∙ ground (arith, m);
          queued = λ i m. elim (Bool-cases (eqb n i)) [
            | inl same ↦
                let eq : n ≡ i = ground (arith, same) in
                inr (
                  d,
                  laws.edge_weight pid n g i
                      ∙ subst (λ k. pg.weight k g ≡ some d) eq (new-weight pg laws d t.built.graph),
                )
            | inr other ↦ inl (ground (arith, sym (member i) ∙ m, other))
          ];
        }

    extend-Extends : (pid : ℕ) (d : T) (t : Growing T G) → Extends t (extend pg pid d t)
    extend-Extends pid d t = elim (Option-cases (get d t.built.set)) [
      | inl no_d ↦
          rw no_d
            (extend_new-Extends pid d t (insert d (pg.add_node d t.built.graph).0 t.built.set))
      | inr (c, at_d) ↦ rw at_d (record {
        keeps = λ i u at. laws.edge_weight pid c t.built.graph i ∙ at;
        news = λ i u at. inl (sym (laws.edge_weight pid c t.built.graph i) ∙ at);
        stays = λ i m. m;
        queued = λ i m. inl m;
      })
    ]

    pub extend_all-Extends :
        (pid : ℕ) (ds : List T) (t : Growing T G) → Extends t (extend_all pg pid ds t)
    unfolding extend_all
    extend_all-Extends pid [] t = Extends-same t
    extend_all-Extends pid (d ∷ ds) t =
        Extends-then t (extend pg pid d t) (extend_all pg pid ds (extend pg pid d t))
          (extend-Extends pid d t) (extend_all-Extends pid ds (extend pg pid d t))

module _ {T G : Type 0} ⦃e : Eq T⦄ (pg : Petgraph T G) (laws : PetgraphLaws pg) where
  node_of-weights :
      (d : T) (b : Building T G) (i : ℕ) (u : T)
      → pg.weight i (node_of pg d b).1.graph ≡ some u
      → (pg.weight i b.graph ≡ some u) ⊎ ((d == u) ≡ true)
  node_of-weights d b i u at = elim (Option-cases (get d b.set)) [
    | inl no_d ↦
        let at' : pg.weight i (pg.add_node d b.graph).1 ≡ some u = rw no_d at at in
        elim (Bool-cases (eqb i (pg.add_node d b.graph).0)) [
          | inl same ↦
              let du : d ≡ u = some_inj (rw same at (sym (laws.node_weight d b.graph i) ∙ at')) in
              inr (subst (λ z. (d == z) ≡ true) du (e.beq_refl d))
          | inr other ↦ inl (rw other at (sym (laws.node_weight d b.graph i) ∙ at'))
        ]
    | inr (c, at_d) ↦ inl (rw at_d at at)
  ]

  -- A node is an old one, or one of those that are added.
  pub extend_all-weights :
      (pid : ℕ) (ds : List T) (t : Growing T G) (i : ℕ) (u : T)
      → pg.weight i (extend_all pg pid ds t).built.graph ≡ some u
      → (pg.weight i t.built.graph ≡ some u) ⊎ (any_of (λ x. x == u) ds ≡ true)
  unfolding extend_all
  extend_all-weights pid [] t i u at = inl at
  extend_all-weights pid (d ∷ ds) t i u at =
      elim (extend_all-weights pid ds (extend pg pid d t) i u at) [
        | inl at' ↦
            elim (node_of-weights d t.built i u (
              sym (laws.edge_weight pid (node_of pg d t.built).0 (node_of pg d t.built).1.graph i)
              ∙ at')) [ inl old ↦ inl old | inr new ↦ inr (rw new refl) ]
        | inr m ↦ inr (ground (arith, m))
      ]

-- A package whose dependencies are in the graph.
abbrev pub entry : {T : Type 0} → (T → List T) → T → LockedPkg T
entry needs u = record { sum = u; dependencies = needs u }

abbrev pub entries : {T : Type 0} → (T → List T) → List T → List (LockedPkg T)
entries needs [] = []
entries needs (u ∷ us) = entry needs u ∷ entries needs us

module _ {T G : Type 0} ⦃e : Eq T⦄ (pg : Petgraph T G) (needs : T → List T) where
  -- The edges are the dependencies of the packages that are done; the other nodes wait.
  pub record IsGrown (finished : List T) (t : Growing T G) : Type 0 where
    pub represents : Represents pg (lists (entries needs finished)) t.built
    pub waiting :
        (i : ℕ) (u : T)
        → pg.weight i t.built.graph ≡ some u
        → (contains i t.queue ≡ true) ⊎ (any_of (λ x. x == u) finished ≡ true)
    pub queued :
        (i : ℕ) → contains i t.queue ≡ true → (u : T) × (pg.weight i t.built.graph ≡ some u)
    pub exact : All (λ u. (i : ℕ) × (pg.weight i t.built.graph ≡ some u)) finished

  module _ (laws : PetgraphLaws pg) where
    -- The dependencies of the package at the head of the queue are added.
    pub step-IsGrown :
        (finished : List T) (pid : ℕ) (rest : List ℕ) (b : Building T G) (pkg : T)
        → IsGrown finished (record { built = b; queue = pid ∷ rest })
        → pg.weight pid b.graph ≡ some pkg
        → IsGrown
            (pkg ∷ finished)
            (extend_all pg pid (needs pkg) (record { built = b; queue = rest }))
    step-IsGrown finished pid rest b pkg h at =
        let t : Growing T G = record { built = b; queue = rest } in
        let t' = extend_all pg pid (needs pkg) t in
        let x = extend_all-Extends pg laws pid (needs pkg) t in
        record {
          represents =
              subst (Represents pg (lists (entries needs (pkg ∷ finished))))
                (sym (extend_all-built pg pid (needs pkg) t))
                (Represents-same pg
                  (λ u v.
                    lists (entries needs finished) u v
                    || ((pkg == u) && any_of (λ d. d == v) (needs pkg)))
                  (lists (entries needs (pkg ∷ finished))) (add_deps pg pid (needs pkg) b)
                  (λ u v. ground arith)
                  (add_deps-Represents pg laws (lists (entries needs finished)) pkg pid (needs pkg)
                    b h.represents (h.represents.found pid pkg at)));
          waiting = λ i u at_i. elim (x.news i u at_i) [
            | inl old ↦ elim (h.waiting i u old) [
              | inl m ↦ elim (Bool-cases (eqb pid i)) [
                | inl same ↦
                    let eq : pid ≡ i = ground (arith, same) in
                    let pu : pkg ≡ u =
                      some_inj (sym at ∙ subst (λ k. pg.weight k b.graph ≡ some u) (sym eq) old) in
                    inr (rw (subst (λ z. (pkg == z) ≡ true) pu (e.beq_refl pkg)) refl)
                | inr other ↦ inl (x.stays i (rw other at m))
              ]
              | inr fin ↦ inr (ground (arith, fin))
            ]
            | inr m ↦ inl m
          ];
          queued = λ i m. elim (x.queued i m) [
            | inl old ↦ let (u, at_u) = h.queued i (ground (arith, old)) in (u, x.keeps i u at_u)
            | inr new ↦ new
          ];
          exact = (
            (pid, x.keeps pid pkg at),
            All-map_of (λ u. (i : ℕ) × (pg.weight i b.graph ≡ some u))
                (λ u. (i : ℕ) × (pg.weight i t'.built.graph ≡ some u))
                (λ u (i, at_u). (i, x.keeps i u at_u)) finished h.exact,
          );
        }
