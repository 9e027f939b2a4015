-- ===== src/Resolve/Tree.antt =====
-- resolve/mod.rs, the end of `solve_loop`: the graph of the chosen packages, breadth first from the root.
pub mod Grown
pub mod Step
pub mod Whole
pub mod Search
use elba.Prelude.{
  ℕ, zero, suc, Bool, true, ◌&&◌, Option, none, some, List, [], ◌∷◌, ◌++◌, ◌≡◌, arith, get_elem?,
  Eq, ◌==◌,
}
use elba.Prelude.IndexMap.{get}
use elba.Prelude.Outcome.{
  M, Result, ok, err, panic, unfinished, ask, modify, unwrap, pure, call, ◌>>=◌, ◌>>◌,
}
use elba.Graph.{Petgraph}
use elba.Graph.Building.{Building, node_of}
use elba.Retriever.{Retriever}
use elba.Resolve.Incompat.{Incompatibility, Summary}
use elba.Resolve.Solve.{decide_all}
use elba.Resolve.State.{Resolver}
use elba.Semver.{Semver}

-- Equality of summaries, as it is derived.
module _ {P V : Type 0} ⦃e : Eq P⦄ ⦃v : Eq V⦄ where
  abbrev pub summary_beq : Summary P V → Summary P V → Bool
  summary_beq a b = a.id == b.id && a.version == b.version

  pub summary_beq_refl : (a : Summary P V) → summary_beq a a ≡ true
  summary_beq_refl a = ground (arith, e.beq_refl a.id, v.beq_refl a.version)

  pub summary_beq_cong :
      (a b c : Summary P V) → summary_beq a b ≡ true → summary_beq a c ≡ summary_beq b c
  summary_beq_cong a b c h =
      ground (arith, h, e.beq_cong a.id b.id c.id, v.beq_cong a.version b.version c.version)

  instance abbrev pub summary_eq : Eq (Summary P V)
  summary_eq = record {
    beq = summary_beq;
    beq_refl = summary_beq_refl;
    beq_cong = summary_beq_cong;
  }

-- `tree` and `set`, and the queue `q` of the nodes whose dependencies are not there yet.
pub record Growing (T G : Type 0) : Type 0 where
  pub built : Building T G
  pub queue : List ℕ

module _ {T G : Type 0} ⦃e : Eq T⦄ (pg : Petgraph T G) where
  -- Only a new node is put into the queue.
  abbrev pub enqueue : Option ℕ → ℕ → List ℕ → List ℕ
  enqueue (some old) nix q = q
  enqueue none nix q = q ++ nix ∷ []

  abbrev pub extend : ℕ → T → Growing T G → Growing T G
  extend pid sum t =
      let (nix, b) = node_of pg sum t.built in
      record {
        built = record b { graph = pg.add_edge pid nix b.graph };
        queue = enqueue (get sum t.built.set) nix t.queue;
      }

module _ {P V C R G : Type 0} ⦃e : Eq P⦄ ⦃v : Eq V⦄ (pg : Petgraph (Summary P V) G)
    (ret : Retriever P V C R) where
  -- The package that an incompatibility says is needed, in the version that was chosen.
  abbrev pub sum_of : Incompatibility P C → M (Resolver P V C R) (Summary P V)
  sum_of inc = do
    (og_pkg, con) ← unwrap (get_elem? inc.deps 1)
    s ← ask (λ s. s)
    ver ← unwrap (get og_pkg s.decisions)
    pure (record { id = ret.mapped s.retriever og_pkg; version = ver })

  unfoldable pub add_incs :
      ℕ
      → List (Incompatibility P C)
      → Growing (Summary P V) G
      → M (Resolver P V C R) (Growing (Summary P V) G)
  add_incs pid [] t = pure t
  add_incs pid (inc ∷ incs) t = do sum ← sum_of inc; add_incs pid incs (extend pg pid sum t)

  -- `Result::unwrap`
  abbrev pub unwrap_ok : {A : Type 0} → Result A → M (Resolver P V C R) A
  unwrap_ok (ok a) s = pure a s
  unwrap_ok (err x) s = panic

  abbrev pub ask_incompats : Summary P V → M (Resolver P V C R) (List (Incompatibility P C))
  ask_incompats pkg s =
      let (result, r) = ret.incompats pkg pkg.id s.retriever in
      unwrap_ok result (record s { retriever = r })

  abbrev pub expand : ℕ → Growing (Summary P V) G → M (Resolver P V C R) (Growing (Summary P V) G)
  unfolding add_incs
  expand pid t = do
    pkg ← unwrap (pg.weight pid t.built.graph)
    incs ← ask_incompats pkg
    add_incs pid incs t

  unfoldable pub tree_loop : ℕ → Growing (Summary P V) G → M (Resolver P V C R) G
  unfolding expand
  tree_loop zero t = λ s. unfinished s
  tree_loop (suc fuel) t = elim t.queue [
    | [] ↦ pure t.built.graph
    | pid ∷ rest ↦ do t' ← expand pid (record t { queue = rest }); tree_loop fuel t'
  ]

  -- The graph, once all versions are chosen.
  unfoldable pub solve_tree : ℕ → M (Resolver P V C R) G
  unfolding tree_loop
  solve_tree fuel = do
    s ← ask (λ s. s)
    let (root_node, b) = node_of pg (ret.root s.retriever) (record { graph = pg.empty; set = [] })
    tree_loop fuel (record { built = b; queue = root_node ∷ [] })

  -- `solve_loop`
  unfoldable pub solve_loop : Semver V C → ℕ → ℕ → M (Resolver P V C R) G
  unfolding decide_all solve_tree
  solve_loop sv fuel tree_fuel = do decide_all sv ret fuel; solve_tree tree_fuel
