-- ===== src/Lockfile/Written.antt =====
-- package/lockfile.rs, writing: the lockfile against the edges of the graph.
use elba.Prelude.{
  ℕ, zero, suc, ◌+◌, ◌<◌, ◌≤◌, Bool, true, false, ◌&&◌, ◌||◌, some, List, [], ◌∷◌, ◌≡◌, refl, sym,
  ap, subst, ◌∙◌, inl, inr, arith, any_of, find, eqb, Eq, ◌==◌, Bool-cases, Option-cases, some_inj,
  clash,
}
use elba.Prelude.IndexSet
use elba.Prelude.Members.{contains, from_to}
use elba.Graph.{Petgraph, find_id, weighs}
use elba.Lockfile.{
  LockedPkg, list_beq, locked_beq, locked_eq, weights, locked, from_iter, to_lockfile,
}
use elba.Lockfile.Read.{lists}

module _ {T G : Type 0} ⦃e : Eq T⦄ (pg : Petgraph T G) where
  -- No weight stands at two nodes, the nodes are numbered from zero, and an edge joins two of them.
  pub record IsSimple (g : G) : Type 0 where
    pub unique :
        (i j : ℕ) (u v : T)
        → pg.weight i g ≡ some u
        → pg.weight j g ≡ some v
        → (u == v) ≡ true
        → i ≡ j
    pub counted : (i : ℕ) (u : T) → pg.weight i g ≡ some u → i < pg.node_count g
    pub ends : (i j : ℕ) → contains j (pg.outgoing i g) ≡ true → (v : T) × (pg.weight j g ≡ some v)

  -- The breadth-first walk meets nodes of the graph: its root, and what nodes that it meets lead to.
  pub record IsWalk (g : G) : Type 0 where
    pub in_graph : (r i : ℕ) → contains i (pg.bfs r g) ≡ true → (u : T) × (pg.weight i g ≡ some u)
    pub from_root : (r : ℕ) (u : T) → pg.weight r g ≡ some u → contains r (pg.bfs r g) ≡ true
    pub onward :
        (r i j : ℕ)
        → contains i (pg.bfs r g) ≡ true
        → contains j (pg.outgoing i g) ≡ true
        → contains j (pg.bfs r g) ≡ true

-- The only index that passes a test is found.
find-only :
    (p : ℕ → Bool) (i k n : ℕ)
    → p i ≡ true
    → ((j : ℕ) → p j ≡ true → j ≡ i)
    → k ≤ i
    → i < k + n
    → find p (from_to k n) ≡ some i
find-only p i k zero t only l h = absurd (omega (arith, l, h))
find-only p i k (suc n) t only l h = elim (Bool-cases (p k)) [
  | inl b ↦ rw b (ap some (only k b))
  | inr b ↦
      let other : eqb k i ≡ false = elim (Bool-cases (eqb k i)) [
        | inl same ↦
            let eq : k ≡ i = ground (arith, same) in clash t (subst (λ z. p z ≡ false) eq b)
        | inr c ↦ c
      ] in
      rw b (find-only p i (suc k) n t only (ground (arith, other, l)) (omega (arith, h)))
]

module _ {T : Type 0} ⦃e : Eq T⦄ where
  any-list_beq :
      (v : T) (xs ys : List T)
      → list_beq xs ys ≡ true
      → any_of (λ d. d == v) xs ≡ any_of (λ d. d == v) ys
  any-list_beq v [] [] h = refl
  any-list_beq v [] (y ∷ ys) h = cc
  any-list_beq v (x ∷ xs) [] h = cc
  any-list_beq v (x ∷ xs) (y ∷ ys) h = ground (arith, h, e.beq_cong x y v, any-list_beq v xs ys)

  lists-insert :
      (k : LockedPkg T) (set : List (LockedPkg T)) (u v : T)
      → lists (IndexSet.insert k set) u v
        ≡ (lists set u v || ((k.sum == u) && any_of (λ d. d == v) k.dependencies))
  unfolding IndexSet.insert
  lists-insert k [] u v = ground arith
  lists-insert k (x ∷ set) u v = elim (Bool-cases (locked_beq x k)) [
    | inl same ↦
        let sums = e.beq_cong x.sum k.sum u (ground (arith, same)) in
        let deps = any-list_beq v x.dependencies k.dependencies (ground (arith, same)) in
        rw same (ground (arith, sums, deps))
    | inr other ↦ rw other (ground (arith, lists-insert k set u v))
  ]

  -- Some package that is listed equals `t`.
  abbrev pub names : List (LockedPkg T) → T → Bool
  names pkgs t = any_of (λ k. k.sum == t) pkgs

  names-insert :
      (k : LockedPkg T) (set : List (LockedPkg T)) (t : T)
      → names (IndexSet.insert k set) t ≡ (names set t || (k.sum == t))
  unfolding IndexSet.insert
  names-insert k [] t = ground arith
  names-insert k (x ∷ set) t = elim (Bool-cases (locked_beq x k)) [
    | inl same ↦ rw same (ground (arith, e.beq_cong x.sum k.sum t (ground (arith, same))))
    | inr other ↦ rw other (ground (arith, names-insert k set t))
  ]

module _ {T G : Type 0} ⦃e : Eq T⦄ (pg : Petgraph T G) (g : G) (simple : IsSimple pg g) where
  find_id-own : (i : ℕ) (u : T) → pg.weight i g ≡ some u → find_id pg u g ≡ some i
  find_id-own i u at =
      find-only (λ j. weighs pg (λ w. w == u) (pg.weight j g)) i 0 (pg.node_count g)
        (rw at (e.beq_refl u))
        (λ j t. elim (Option-cases (pg.weight j g)) [
          | inl no_w ↦ cc (rw no_w at t)
          | inr (w, at_w) ↦ simple.unique j i w u at_w at (rw at_w at t)
        ])
        (omega arith) (omega (arith, simple.counted i u at))

  abbrev AreWeights : List ℕ → List T → Type 0
  AreWeights is ws =
      (j : ℕ) (v : T) → pg.weight j g ≡ some v → any_of (λ w. w == v) ws ≡ contains j is

  AreWeights-cons :
      (i : ℕ) (is : List ℕ) (w : T) (ws : List T)
      → pg.weight i g ≡ some w
      → AreWeights is ws
      → AreWeights (i ∷ is) (w ∷ ws)
  AreWeights-cons i is w ws at own j v at_v = elim (Bool-cases (eqb i j)) [
    | inl same ↦
        let eq : i ≡ j = ground (arith, same) in
        let wv : w ≡ v = some_inj (sym at ∙ subst (λ k. pg.weight k g ≡ some v) (sym eq) at_v) in
        let hit : (w == v) ≡ true = subst (λ z. (w == z) ≡ true) wv (e.beq_refl w) in
        rw (same, hit) refl
    | inr other ↦ elim (Bool-cases (w == v)) [
      | inl hit ↦
          let eq : i ≡ j = simple.unique i j w v at at_v hit in clash (ground (arith, eq)) other
      | inr miss ↦ rw (other, miss) (own j v at_v)
    ]
  ]

  -- The weights of nodes are found, and are those of the nodes.
  weights-own :
      (is : List ℕ)
      → ((i : ℕ) → contains i is ≡ true → (u : T) × (pg.weight i g ≡ some u))
      → (ws : List T) × (weights pg is g ≡ some ws) × AreWeights is ws
  weights-own [] all = ([], refl, λ j v at. refl)
  weights-own (i ∷ is) all =
      let (w, at) = all i (ground arith) in
      let (ws, found, own) = weights-own is (λ j m. all j (ground (arith, m))) in
      (w ∷ ws, rw (at, found) refl, AreWeights-cons i is w ws at own)

  -- A node is written with its weight and those that its edges lead to.
  locked-own :
      (i : ℕ) (u : T)
      → pg.weight i g ≡ some u
      → (ws : List T) × (locked pg g i ≡ some (record { sum = u; dependencies = ws }))
        × AreWeights (pg.outgoing i g) ws
  locked-own i u at =
      let (ws, found, own) = weights-own (pg.outgoing i g) (simple.ends i) in
      (ws, rw (at, find_id-own i u at, found) refl, own)

  -- What is written for nodes is what was written before, and their edges.
  abbrev pub ListsEdges : List ℕ → List (LockedPkg T) → List (LockedPkg T) → Type 0
  ListsEdges is set pkgs =
      (i j : ℕ) (u v : T)
      → pg.weight i g ≡ some u
      → pg.weight j g ≡ some v
      → lists pkgs u v ≡ (lists set u v || (contains i is && contains j (pg.outgoing i g)))

  ListsEdges-cons :
      (k : ℕ) (is : List ℕ) (w : T) (ws : List T) (set pkgs : List (LockedPkg T))
      → pg.weight k g ≡ some w
      → AreWeights (pg.outgoing k g) ws
      → ListsEdges is (IndexSet.insert (record { sum = w; dependencies = ws }) set) pkgs
      → ListsEdges (k ∷ is) set pkgs
  ListsEdges-cons k is w ws set pkgs at own rest i j u v at_i at_j =
      let all =
        rest i j u v at_i at_j
        ∙ ap (λ b. b || (contains i is && contains j (pg.outgoing i g)))
            (lists-insert (record { sum = w; dependencies = ws }) set u v) in
      elim (Bool-cases (eqb k i)) [
        | inl same ↦
            let eq : k ≡ i = ground (arith, same) in
            let wu : w ≡ u =
              some_inj (sym at ∙ subst (λ z. pg.weight z g ≡ some u) (sym eq) at_i) in
            let hit : (w == u) ≡ true = subst (λ z. (w == z) ≡ true) wu (e.beq_refl w) in
            let here : any_of (λ d. d == v) ws ≡ contains j (pg.outgoing i g) =
              own j v at_j ∙ ap (λ z. contains j (pg.outgoing z g)) eq in
            all ∙ ground (arith, hit, here, same)
        | inr other ↦ elim (Bool-cases (w == u)) [
          | inl hit ↦
              let eq : k ≡ i = simple.unique k i w u at at_i hit in clash (ground (arith, eq)) other
          | inr miss ↦ all ∙ ground (arith, miss, other)
        ]
      ]

  -- All nodes are named that were named before or are written.
  abbrev pub NamesAll : List ℕ → List (LockedPkg T) → List (LockedPkg T) → Type 0
  NamesAll is set pkgs =
      ((t : T) → names set t ≡ true → names pkgs t ≡ true)
      × ((i : ℕ) (t : T) → contains i is ≡ true → pg.weight i g ≡ some t → names pkgs t ≡ true)

  NamesAll-cons :
      (k : ℕ) (is : List ℕ) (w : T) (ws : List T) (set pkgs : List (LockedPkg T))
      → pg.weight k g ≡ some w
      → NamesAll is (IndexSet.insert (record { sum = w; dependencies = ws }) set) pkgs
      → NamesAll (k ∷ is) set pkgs
  NamesAll-cons k is w ws set pkgs at (before, rest) =
      let inserted = names-insert (record { sum = w; dependencies = ws }) set in
      (
        λ t m. before t (inserted t ∙ ground (arith, m)),
        λ i t m at_i. elim (Bool-cases (eqb k i)) [
          | inl same ↦
              let eq : k ≡ i = ground (arith, same) in
              let wt : w ≡ t =
                some_inj (sym at ∙ subst (λ z. pg.weight z g ≡ some t) (sym eq) at_i) in
              let hit : (w == t) ≡ true = subst (λ z. (w == z) ≡ true) wt (e.beq_refl w) in
              before t (inserted t ∙ ground (arith, hit))
          | inr other ↦ rest i t (rw other at m) at_i
        ],
      )

  from_iter-ListsEdges :
      (is : List ℕ) (set : List (LockedPkg T))
      → ((i : ℕ) → contains i is ≡ true → (u : T) × (pg.weight i g ≡ some u))
      → (pkgs : List (LockedPkg T)) × (from_iter pg g is set ≡ some pkgs)
        × ListsEdges is set pkgs
        × NamesAll is set pkgs
  unfolding from_iter
  from_iter-ListsEdges [] set all =
      (set, refl, λ i j u v at_i at_j. ground arith, (λ t m. m, λ i t. cc))
  from_iter-ListsEdges (k ∷ is) set all =
      let (w, at) = all k (ground arith) in
      let (ws, found, own) = locked-own k w at in
      let (pkgs, made, edges, named) =
        from_iter-ListsEdges is (IndexSet.insert (record { sum = w; dependencies = ws }) set)
          (λ i m. all i (ground (arith, m))) in
      (
        pkgs,
        rw found made,
        ListsEdges-cons k is w ws set pkgs at own edges,
        NamesAll-cons k is w ws set pkgs at named,
      )

  -- A graph that has a root, and no weight twice, is written without a panic: the lockfile names the
  -- nodes that the root reaches, and lists the edges that start at one of them.
  pub to_lockfile-writes :
      (r : T)
      → IsWalk pg g
      → pg.weight 0 g ≡ some r
      → (pkgs : List (LockedPkg T)) × (to_lockfile pg g ≡ some pkgs)
        × ListsEdges (pg.bfs 0 g) [] pkgs
        × NamesAll (pg.bfs 0 g) [] pkgs
  unfolding to_lockfile
  to_lockfile-writes r walk at =
      let (pkgs, made, edges, named) = from_iter-ListsEdges (pg.bfs 0 g) [] (walk.in_graph 0) in
      (pkgs, rw (at, find_id-own 0 r at) made, edges, named)
