-- ===== src/Graph.antt =====
-- util/graph.rs: a graph of packages, over the crate petgraph, which is a parameter.
pub mod Building
use elba.Prelude.{
  ℕ, Bool, true, false, ◌&&◌, ◌||◌, Option, none, some, List, [], ◌∷◌, ◌≡◌, map, find, eqb, Eq,
  ◌==◌, if◌then◌else◌,
}
use elba.Prelude.IndexMap.{is_some}
use elba.Prelude.Outcome.{and_some}
use elba.Prelude.Members.{contains, from_to}

-- What the program calls of `petgraph::Graph<T, ()>` and of its breadth-first walk.
pub record Petgraph (T G : Type 0) : Type 0 where
  pub empty : G
  pub node_count : G → ℕ
  pub weight : ℕ → G → Option T
  -- the index of the new node, and the graph with it
  pub add_node : T → G → ℕ × G
  pub add_edge : ℕ → ℕ → G → G
  -- `neighbors_directed(_, Outgoing)`
  pub outgoing : ℕ → G → List ℕ
  -- `Bfs::new(_, root)`
  pub bfs : ℕ → G → List ℕ

-- Its documented behaviour.
pub record PetgraphLaws {T G : Type 0} (pg : Petgraph T G) : Type 0 where
  pub empty_weight : (i : ℕ) → pg.weight i pg.empty ≡ none
  pub empty_outgoing : (p c : ℕ) → contains c (pg.outgoing p pg.empty) ≡ false
  pub node_new : (t : T) (g : G) → pg.weight (pg.add_node t g).0 g ≡ none
  pub node_weight :
      (t : T) (g : G) (i : ℕ)
      → pg.weight i (pg.add_node t g).1
        ≡ (if eqb i (pg.add_node t g).0 then some t else pg.weight i g)
  pub node_outgoing :
      (t : T) (g : G) (p c : ℕ)
      → contains c (pg.outgoing p (pg.add_node t g).1) ≡ contains c (pg.outgoing p g)
  pub edge_weight : (a b : ℕ) (g : G) (i : ℕ) → pg.weight i (pg.add_edge a b g) ≡ pg.weight i g
  pub edge_outgoing :
      (a b : ℕ) (g : G) (p c : ℕ)
      → is_some (pg.weight a g) ≡ true
      → is_some (pg.weight b g) ≡ true
      → contains c (pg.outgoing p (pg.add_edge a b g))
        ≡ ((eqb a p && eqb b c) || contains c (pg.outgoing p g))

module _ {T G : Type 0} (pg : Petgraph T G) where
  -- `&self.inner[index]`, where there is such a node.
  abbrev pub root : G → Option T
  root g = pg.weight 0 g

  abbrev pub weighs : (T → Bool) → Option T → Bool
  weighs p none = false
  weighs p (some w) = p w

  abbrev pub find_where : (T → Bool) → G → Option ℕ
  find_where p g = find (λ i. weighs p (pg.weight i g)) (from_to 0 (pg.node_count g))

  abbrev pub find_by : (T → Bool) → G → Option T
  find_by p g = and_some (find_where p g) λ i. pg.weight i g

  abbrev pub find_id : ⦃e : Eq T⦄ → T → G → Option ℕ
  find_id node g = find_where (λ weight. weight == node) g
