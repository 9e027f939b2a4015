-- ===== src/Lockfile/Read.antt =====
-- package/lockfile.rs, reading: the graph against the relation that a lockfile lists.
use elba.Prelude.{
  ℕ, Bool, true, false, ◌&&◌, ◌||◌, some, List, [], ◌∷◌, ◌≡◌, refl, sym, ap, ◌∙◌, inl, inr, arith,
  any_of, Eq, Bool-cases, some_inj, ◌==◌,
}
use elba.Prelude.IndexMap.{get, get_cong, is_some}
use elba.Prelude.Members.{contains}
use elba.Graph.{Petgraph, PetgraphLaws}
use elba.Graph.Building.{
  Building, node_of, Represents, Represents-same, empty-Represents, node_of-Placed, edge-Represents,
  node_of-keeps, node_of-at, Represents-edges,
}
use elba.Lockfile.{LockedPkg, add_deps, add_pkgs, of_lockfile}

module _ {T : Type 0} ⦃e : Eq T⦄ where
  abbrev pub depends_on : T → List T → T → Bool
  depends_on u deps v = any_of (λ d. d == v) deps

  -- Some package that equals `u` lists a dependency that equals `v`.
  abbrev pub lists : List (LockedPkg T) → T → T → Bool
  lists pkgs u v = any_of (λ k. (k.sum == u) && any_of (λ d. d == v) k.dependencies) pkgs

module _ {T G : Type 0} ⦃e : Eq T⦄ (pg : Petgraph T G) where
  -- The graph has the packages that are listed as nodes, none of them twice, and the dependencies that
  -- are listed as edges.
  pub record IsRead (pkgs : List (LockedPkg T)) (g : G) : Type 0 where
    pub unique :
        (i j : ℕ) (u v : T)
        → pg.weight i g ≡ some u
        → pg.weight j g ≡ some v
        → (u == v) ≡ true
        → i ≡ j
    pub nodes :
        (t : T)
        → any_of (λ k. k.sum == t) pkgs ≡ true
        → (i : ℕ) × (w : T) × (pg.weight i g ≡ some w) × ((w == t) ≡ true)
    pub edges :
        (i j : ℕ) (u v : T)
        → pg.weight i g ≡ some u
        → pg.weight j g ≡ some v
        → contains j (pg.outgoing i g) ≡ lists pkgs u v
    pub ends :
        (i j : ℕ)
        → contains j (pg.outgoing i g) ≡ true
        → (is_some (pg.weight i g) ≡ true) × (is_some (pg.weight j g) ≡ true)

module _ {T G : Type 0} ⦃e : Eq T⦄ (pg : Petgraph T G) (laws : PetgraphLaws pg) where
  -- The relation, and a weight that keeps its node.
  pub add_deps-Represents :
      (r : T → T → Bool) (s : T) (a : ℕ) (deps : List T) (b : Building T G)
      → Represents pg r b
      → get s b.set ≡ some a
      → Represents pg
          (λ u v. r u v || ((s == u) && any_of (λ d. d == v) deps))
          (add_deps pg a deps b)
  unfolding add_deps
  add_deps-Represents r s a [] b h at =
      Represents-same pg r (λ u v. r u v || ((s == u) && false)) b (λ u v. ground arith) h
  add_deps-Represents r s a (d ∷ deps) b h at =
      let (h', at_d, kept) = node_of-Placed pg laws r d b h in
      let (c, b') = node_of pg d b in
      let one = edge-Represents pg laws r s d a c b' h' (kept s a at) at_d in
      Represents-same pg
        (λ u v. (r u v || ((s == u) && (d == v))) || ((s == u) && any_of (λ d. d == v) deps))
        (λ u v. r u v || ((s == u) && any_of (λ d. d == v) (d ∷ deps)))
        (add_deps pg a deps (record b' { graph = pg.add_edge a c b'.graph })) (λ u v. ground arith)
        (add_deps-Represents (λ u v. r u v || ((s == u) && (d == v))) s a deps
          (record b' { graph = pg.add_edge a c b'.graph }) one (kept s a at))

  add_pkgs-Represents :
      (r : T → T → Bool) (pkgs : List (LockedPkg T)) (b : Building T G)
      → Represents pg r b
      → Represents pg (λ u v. r u v || lists pkgs u v) (add_pkgs pg pkgs b)
  unfolding add_pkgs
  add_pkgs-Represents r [] b h =
      Represents-same pg r (λ u v. r u v || false) b (λ u v. ground arith) h
  add_pkgs-Represents r (k ∷ pkgs) b h =
      let (h', at, kept) = node_of-Placed pg laws r k.sum b h in
      let (a, b') = node_of pg k.sum b in
      let r' = λ (u v : T). r u v || ((k.sum == u) && any_of (λ d. d == v) k.dependencies) in
      Represents-same pg (λ u v. r' u v || lists pkgs u v) (λ u v. r u v || lists (k ∷ pkgs) u v)
        (add_pkgs pg pkgs (add_deps pg a k.dependencies b')) (λ u v. ground arith)
        (add_pkgs-Represents r' pkgs (add_deps pg a k.dependencies b')
          (add_deps-Represents r k.sum a k.dependencies b' h' at))

  -- Whatever is added, a weight keeps its node.
  pub add_deps-keeps :
      (a : ℕ) (deps : List T) (b : Building T G) (u : T) (i : ℕ)
      → get u b.set ≡ some i
      → get u (add_deps pg a deps b).set ≡ some i
  unfolding add_deps
  add_deps-keeps a [] b u i at = at
  add_deps-keeps a (d ∷ deps) b u i at =
      let (c, b') = node_of pg d b in
      add_deps-keeps a deps (record b' { graph = pg.add_edge a c b'.graph }) u i
        (node_of-keeps pg d b u i at)

  add_pkgs-keeps :
      (pkgs : List (LockedPkg T)) (b : Building T G) (u : T) (i : ℕ)
      → get u b.set ≡ some i
      → get u (add_pkgs pg pkgs b).set ≡ some i
  unfolding add_pkgs
  add_pkgs-keeps [] b u i at = at
  add_pkgs-keeps (k ∷ pkgs) b u i at =
      let (a, b') = node_of pg k.sum b in
      add_pkgs-keeps pkgs (add_deps pg a k.dependencies b') u i
        (add_deps-keeps a k.dependencies b' u i (node_of-keeps pg k.sum b u i at))

  add_pkgs-places :
      (pkgs : List (LockedPkg T)) (b : Building T G) (t : T)
      → any_of (λ k. k.sum == t) pkgs ≡ true
      → (i : ℕ) × (get t (add_pkgs pg pkgs b).set ≡ some i)
  unfolding add_pkgs
  add_pkgs-places [] b t h = cc
  add_pkgs-places (k ∷ pkgs) b t h =
      let (a, b') = node_of pg k.sum b in
      elim (Bool-cases (k.sum == t)) [
        | inl same ↦ (
          a,
          add_pkgs-keeps pkgs (add_deps pg a k.dependencies b') t a (
              add_deps-keeps a k.dependencies b' t a
                (sym (get_cong k.sum t b'.set same) ∙ node_of-at pg k.sum b)),
        )
        | inr other ↦ add_pkgs-places pkgs (add_deps pg a k.dependencies b') t (rw other at h)
      ]

  -- The graph that is read from a lockfile has a node for each package of it and one only, and its edges
  -- are the dependencies that the lockfile lists.
  pub of_lockfile-IsRead : (pkgs : List (LockedPkg T)) → IsRead pg pkgs (of_lockfile pg pkgs)
  unfolding of_lockfile
  of_lockfile-IsRead pkgs =
      let start : Building T G = record { graph = pg.empty; set = [] } in
      let b = add_pkgs pg pkgs start in
      let h : Represents pg (lists pkgs) b =
        Represents-same pg (λ u v. false || lists pkgs u v) (lists pkgs) b (λ u v. refl)
          (add_pkgs-Represents (λ u v. false) pkgs start (empty-Represents pg laws)) in
      record {
        unique = λ i j u v at_i at_j eq.
            some_inj (sym (h.found i u at_i) ∙ get_cong u v b.set eq ∙ h.found j v at_j);
        nodes = λ t listed.
            let (i, at) = add_pkgs-places pkgs start t listed in
            let (w, at_w, eq) = h.placed t i at in (i, w, at_w, eq);
        edges = Represents-edges pg (lists pkgs) b h;
        ends = λ i j m.
            let (u, v, at_u, at_v, q) = h.sound i j m in (ap is_some at_u, ap is_some at_v);
      }
