-- ===== src/Graph/Building.antt =====
-- Graphs that are made node by node with a map from the weights to the nodes: what the graph and the
-- map say is one relation on the weights.
use elba.Prelude.{
  ℕ, Bool, true, false, ◌&&◌, ◌||◌, Option, none, some, [], ◌≡◌, refl, sym, ap, subst, ◌∙◌, inl,
  inr, arith, eqb, Eq, ◌==◌, beq_sym, Bool-cases, Option-cases, some_inj, clash, if◌then◌else◌,
}
use elba.Prelude.IndexMap.{IndexMap, get, insert, get-insert, get_cong, is_some}
use elba.Prelude.Members.{contains}
use elba.Graph.{Petgraph, PetgraphLaws}

pub record Building (T G : Type 0) : Type 0 where
  pub graph : G
  pub set : IndexMap T ℕ

module _ {T : Type 0} ⦃e : Eq T⦄ where
  -- A weight that is in the map stays there when another is added.
  insert-keeps :
      (t u : T) (n i : ℕ) (m : IndexMap T ℕ)
      → get t m ≡ none
      → get u m ≡ some i
      → get u (insert t n m) ≡ some i
  insert-keeps t u n i m no_t u_at = elim (Bool-cases (t == u)) [
    | inl same ↦ cc (sym no_t ∙ get_cong t u m same ∙ u_at)
    | inr other ↦ get-insert u t n m ∙ rw other u_at
  ]

module _ {T G : Type 0} ⦃e : Eq T⦄ (pg : Petgraph T G) where
  abbrev pub place : T → Option ℕ → Building T G → ℕ × Building T G
  place t (some i) b = (i, b)
  place t none b =
      let (i, g) = pg.add_node t b.graph in (i, record { graph = g; set = insert t i b.set })

  -- The node of a weight: the one in the map, or a new one.
  abbrev pub node_of : T → Building T G → ℕ × Building T G
  node_of t b = place t (get t b.set) b

  -- The graph is the relation `r`, with one node for each weight.
  pub record Represents (r : T → T → Bool) (b : Building T G) : Type 0 where
    pub placed :
        (t : T) (i : ℕ)
        → get t b.set ≡ some i
        → (w : T) × (pg.weight i b.graph ≡ some w) × ((w == t) ≡ true)
    pub found : (i : ℕ) (w : T) → pg.weight i b.graph ≡ some w → get w b.set ≡ some i
    pub sound :
        (i j : ℕ)
        → contains j (pg.outgoing i b.graph) ≡ true
        → (u : T) × (v : T) × (pg.weight i b.graph ≡ some u)
          × (pg.weight j b.graph ≡ some v)
          × (r u v ≡ true)
    pub complete :
        (u v : T)
        → r u v ≡ true
        → (i : ℕ) × (j : ℕ) × (get u b.set ≡ some i)
          × (get v b.set ≡ some j)
          × (contains j (pg.outgoing i b.graph) ≡ true)

  pub Represents-same :
      (r r' : T → T → Bool) (b : Building T G)
      → ((u v : T) → r u v ≡ r' u v)
      → Represents r b
      → Represents r' b
  Represents-same r r' b same h = record {
    placed = h.placed;
    found = h.found;
    sound = λ i j m. let (u, v, wu, wv, t) = h.sound i j m in (u, v, wu, wv, sym (same u v) ∙ t);
    complete = λ u v t. h.complete u v (same u v ∙ t);
  }

  module _ (laws : PetgraphLaws pg) where
    pub empty-Represents : Represents (λ u v. false) (record { graph = pg.empty; set = [] })
    unfolding get
    empty-Represents = record {
      placed = λ t i. cc;
      found = λ i w h. cc (sym (laws.empty_weight i) ∙ h);
      sound = λ i j m. clash m (laws.empty_outgoing i j);
      complete = λ u v. cc;
    }

    -- A node that is there keeps its weight when another is added.
    pub weight-keeps :
        (t : T) (g : G) (i : ℕ) (w : T)
        → pg.weight i g ≡ some w
        → pg.weight i (pg.add_node t g).1 ≡ some w
    weight-keeps t g i w at = elim (Bool-cases (eqb i (pg.add_node t g).0)) [
      | inl same ↦
          let eq : i ≡ (pg.add_node t g).0 = ground (arith, same) in
          cc (sym (laws.node_new t g) ∙ subst (λ k. pg.weight k g ≡ some w) eq at)
      | inr other ↦ laws.node_weight t g i ∙ rw other at
    ]

    pub new-weight : (t : T) (g : G) → pg.weight (pg.add_node t g).0 (pg.add_node t g).1 ≡ some t
    new-weight t g =
        let own : eqb (pg.add_node t g).0 (pg.add_node t g).0 ≡ true = ground arith in
        laws.node_weight t g (pg.add_node t g).0 ∙ rw own refl

    -- The weight has the node, and no node is lost.
    abbrev pub Placed : (T → T → Bool) → T → Building T G → ℕ × Building T G → Type 0
    Placed r t b (i, b') =
        Represents r b'
        × (get t b'.set ≡ some i)
        × ((u : T) (j : ℕ) → get u b.set ≡ some j → get u b'.set ≡ some j)

    add-Placed :
        (r : T → T → Bool) (t : T) (b : Building T G)
        → Represents r b
        → get t b.set ≡ none
        → Placed r t b (place t none b)
    add-Placed r t b h no_t =
        let n = (pg.add_node t b.graph).0 in
        (
          record {
            placed = λ u i at. elim (Bool-cases (t == u)) [
              | inl same ↦
                  let eq : n ≡ i = some_inj (rw same at (sym (get-insert u t n b.set) ∙ at)) in
                  (
                    t,
                    subst (λ k. pg.weight k (pg.add_node t b.graph).1 ≡ some t) eq
                        (new-weight t b.graph),
                    same,
                  )
              | inr other ↦
                  let (w, at_w, eq) =
                    h.placed u i (rw other at (sym (get-insert u t n b.set) ∙ at)) in
                  (w, weight-keeps t b.graph i w at_w, eq)
            ];
            found = λ i w at. elim (Bool-cases (eqb i n)) [
              | inl same ↦
                  let eq : n ≡ i = ground (arith, same) in
                  let tw : t ≡ w = some_inj (
                    sym (new-weight t b.graph)
                    ∙ subst (λ k. pg.weight k (pg.add_node t b.graph).1 ≡ some w) (sym eq) at) in
                  get-insert w t n b.set
                  ∙ subst (λ z. (if t == z then some n else get z b.set) ≡ some i) tw
                      (rw (e.beq_refl t) (ap some eq))
              | inr other ↦
                  insert-keeps t w n i b.set no_t
                    (h.found i w (rw other at (sym (laws.node_weight t b.graph i) ∙ at)))
            ];
            sound = λ i j m.
                let (u, v, wu, wv, q) = h.sound i j (sym (laws.node_outgoing t b.graph i j) ∙ m) in
                (u, v, weight-keeps t b.graph i u wu, weight-keeps t b.graph j v wv, q);
            complete = λ u v q.
                let (i, j, gu, gv, m) = h.complete u v q in
                (
                  i,
                  j,
                  insert-keeps t u n i b.set no_t gu,
                  insert-keeps t v n j b.set no_t gv,
                  laws.node_outgoing t b.graph i j ∙ m,
                );
          },
          get-insert t t n b.set ∙ rw (e.beq_refl t) refl,
          λ u j at. insert-keeps t u n j b.set no_t at,
        )

    pub node_of-Placed :
        (r : T → T → Bool) (t : T) (b : Building T G) → Represents r b → Placed r t b (node_of t b)
    node_of-Placed r t b h = elim (Option-cases (get t b.set)) [
      | inl no_t ↦ rw no_t (add-Placed r t b h no_t)
      | inr (i, at) ↦ rw at (h, at, λ u j at_u. at_u)
    ]

    -- A new edge is a new pair of the relation.
    pub edge-Represents :
        (r : T → T → Bool) (s d : T) (a c : ℕ) (b : Building T G)
        → Represents r b
        → get s b.set ≡ some a
        → get d b.set ≡ some c
        → Represents
            (λ u v. r u v || ((s == u) && (d == v)))
            (record b { graph = pg.add_edge a c b.graph })
    edge-Represents r s d a c b h at_s at_d =
        let (ws, at_a, eq_s) = h.placed s a at_s in
        let (wd, at_c, eq_d) = h.placed d c at_d in
        let edges =
          λ (i j : ℕ). laws.edge_outgoing a c b.graph i j (ap is_some at_a) (ap is_some at_c) in
        record {
          placed = λ t i at.
              let (w, at_i, eq) = h.placed t i at in (w, laws.edge_weight a c b.graph i ∙ at_i, eq);
          found = λ i w at. h.found i w (sym (laws.edge_weight a c b.graph i) ∙ at);
          sound = λ i j m. elim (Bool-cases (eqb a i && eqb c j)) [
            | inl new ↦
                let ai : a ≡ i = ground (arith, new) in
                let cj : c ≡ j = ground (arith, new) in
                (
                  ws,
                  wd,
                  laws.edge_weight a c b.graph i
                      ∙ subst (λ k. pg.weight k b.graph ≡ some ws) ai at_a,
                  laws.edge_weight a c b.graph j
                      ∙ subst (λ k. pg.weight k b.graph ≡ some wd) cj at_c,
                  ground (arith, beq_sym ws s eq_s, beq_sym wd d eq_d),
                )
            | inr old ↦
                let (u, v, wu, wv, q) = h.sound i j (rw old at (sym (edges i j) ∙ m)) in
                (
                  u,
                  v,
                  laws.edge_weight a c b.graph i ∙ wu,
                  laws.edge_weight a c b.graph j ∙ wv,
                  ground (arith, q),
                )
          ];
          complete = λ u v q. elim (Bool-cases ((s == u) && (d == v))) [
            | inl new ↦ (
              a,
              c,
              sym (get_cong s u b.set (ground (arith, new))) ∙ at_s,
              sym (get_cong d v b.set (ground (arith, new))) ∙ at_d,
              edges a c ∙ ground arith,
            )
            | inr old ↦
                let (i, j, gu, gv, m) = h.complete u v (ground (arith, q, old)) in
                (i, j, gu, gv, edges i j ∙ ground (arith, m))
          ];
        }

module _ {T G : Type 0} ⦃e : Eq T⦄ (pg : Petgraph T G) where
  pub node_of-keeps :
      (t : T) (b : Building T G) (u : T) (i : ℕ)
      → get u b.set ≡ some i
      → get u (node_of pg t b).1.set ≡ some i
  node_of-keeps t b u i at = elim (Option-cases (get t b.set)) [
    | inl no_t ↦ rw no_t (insert-keeps t u (pg.add_node t b.graph).0 i b.set no_t at)
    | inr (j, at_t) ↦ rw at_t at
  ]

  pub node_of-at :
      (t : T) (b : Building T G) → get t (node_of pg t b).1.set ≡ some (node_of pg t b).0
  node_of-at t b = elim (Option-cases (get t b.set)) [
    | inl no_t ↦ rw no_t (get-insert t t (pg.add_node t b.graph).0 b.set ∙ rw (e.beq_refl t) refl)
    | inr (j, at_t) ↦ rw at_t at_t
  ]

  -- An edge between two nodes is a pair of the relation.
  pub Represents-edges :
      (r : T → T → Bool) (b : Building T G)
      → Represents pg r b
      → (i j : ℕ) (u v : T) → pg.weight i b.graph ≡ some u
      → pg.weight j b.graph ≡ some v
      → contains j (pg.outgoing i b.graph) ≡ r u v
  Represents-edges r b h i j u v at_i at_j = elim (Bool-cases (r u v)) [
    | inl q ↦
        let (i', j', gu, gv, m) = h.complete u v q in
        let ii : i' ≡ i = some_inj (sym gu ∙ h.found i u at_i) in
        let jj : j' ≡ j = some_inj (sym gv ∙ h.found j v at_j) in
        subst (λ k. contains j (pg.outgoing k b.graph) ≡ true) ii
          (subst (λ k. contains k (pg.outgoing i' b.graph) ≡ true) jj m)
        ∙ sym q
    | inr off ↦ elim (Bool-cases (contains j (pg.outgoing i b.graph))) [
      | inl m ↦
          let (u', v', wu, wv, q) = h.sound i j m in
          let uu : u' ≡ u = some_inj (sym wu ∙ at_i) in
          let vv : v' ≡ v = some_inj (sym wv ∙ at_j) in
          clash (subst (λ z. r u z ≡ true) vv (subst (λ z. r z v' ≡ true) uu q)) off
      | inr n ↦ n ∙ sym off
    ]
  ]
