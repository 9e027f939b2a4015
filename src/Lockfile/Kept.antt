-- ===== src/Lockfile/Kept.antt =====
-- A graph that is written to a lockfile and read again.
use elba.Prelude.{
  ℕ, true, ◌&&◌, some, List, [], ◌∷◌, ◌≡◌, refl, ◌∙◌, arith, any_of, Eq, ◌==◌, beq_comm,
}
use elba.Prelude.Members.{contains}
use elba.Graph.{Petgraph, PetgraphLaws}
use elba.Lockfile.{LockedPkg, of_lockfile, to_lockfile}
use elba.Lockfile.Read.{lists, of_lockfile-IsRead}
use elba.Lockfile.Written.{IsSimple, IsWalk, to_lockfile-writes}

module _ {T : Type 0} ⦃e : Eq T⦄ where
  any_cong :
      (ds : List T) (v v' : T)
      → (v == v') ≡ true
      → any_of (λ d. d == v) ds ≡ any_of (λ d. d == v') ds
  any_cong [] v v' h = refl
  any_cong (d ∷ ds) v v' h =
      ground (arith, e.beq_cong v v' d h, beq_comm v d, beq_comm v' d, any_cong ds v v' h)

  lists_cong :
      (pkgs : List (LockedPkg T)) (u u' v v' : T)
      → (u == u') ≡ true
      → (v == v') ≡ true
      → lists pkgs u v ≡ lists pkgs u' v'
  lists_cong [] u u' v v' h k = refl
  lists_cong (p ∷ pkgs) u u' v v' h k = ground (
    arith,
    e.beq_cong u u' p.sum h,
    beq_comm u p.sum,
    beq_comm u' p.sum,
    any_cong p.dependencies v v' k,
    lists_cong pkgs u u' v v' h k,
  )

module _ {T G : Type 0} ⦃e : Eq T⦄ (pg : Petgraph T G) where
  -- `g'` has the nodes of `g` that its root reaches, and between equal nodes the same edges.
  pub record IsKept (g g' : G) : Type 0 where
    pub nodes :
        (i : ℕ) (u : T)
        → contains i (pg.bfs 0 g) ≡ true
        → pg.weight i g ≡ some u
        → (i' : ℕ) × (u' : T) × (pg.weight i' g' ≡ some u') × ((u' == u) ≡ true)
    pub edges :
        (i j i' j' : ℕ) (u v u' v' : T)
        → pg.weight i g ≡ some u
        → pg.weight j g ≡ some v
        → pg.weight i' g' ≡ some u'
        → pg.weight j' g' ≡ some v'
        → (u' == u) ≡ true
        → (v' == v) ≡ true
        → contains j' (pg.outgoing i' g')
          ≡ (contains i (pg.bfs 0 g) && contains j (pg.outgoing i g))

  -- A graph that has a root, and no weight twice, is written, and what is written reads back as the part
  -- of the graph that the root reaches.
  pub of_lockfile-to_lockfile :
      PetgraphLaws pg
      → (g : G) (r : T) → IsSimple pg g
      → IsWalk pg g
      → pg.weight 0 g ≡ some r
      → (pkgs : List (LockedPkg T)) × (to_lockfile pg g ≡ some pkgs)
        × IsKept g (of_lockfile pg pkgs)
  of_lockfile-to_lockfile laws g r simple walk at =
      let (pkgs, made, listed, named) = to_lockfile-writes pg g simple r walk at in
      let read = of_lockfile-IsRead pg laws pkgs in
      (
        pkgs,
        made,
        record {
          nodes = λ i u m at_i. read.nodes u (named.1 i u m at_i);
          edges = λ i j i' j' u v u' v' at_i at_j at_i' at_j' eq_u eq_v.
              read.edges i' j' u' v' at_i' at_j'
              ∙ lists_cong pkgs u' u v' v eq_u eq_v
              ∙ listed i j u v at_i at_j;
        },
      )
