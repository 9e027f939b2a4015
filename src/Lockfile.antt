-- ===== src/Lockfile.antt =====
-- package/lockfile.rs: the lockfile as a list of packages with their dependencies, and the graph of
-- packages. Reading and writing of the file itself is serde's.
pub mod Read
pub mod Written
pub mod Kept
use elba.Prelude.{
  ℕ, Bool, true, false, ◌&&◌, ◌||◌, Option, none, some, List, [], ◌∷◌, ◌≡◌, refl, arith, any_of, Eq,
  ◌==◌, if◌then◌else◌,
}
use elba.Prelude.IndexSet
use elba.Prelude.Outcome.{and_some}
use elba.Graph.{Petgraph, find_id, root}
use elba.Graph.Building.{Building, node_of}

pub record LockedPkg (T : Type 0) : Type 0 where
  pub sum : T
  pub dependencies : List T

module _ {T G : Type 0} ⦃e : Eq T⦄ (pg : Petgraph T G) where
  -- The loop over the dependencies of a package whose node is `nix`.
  unfoldable pub add_deps : ℕ → List T → Building T G → Building T G
  add_deps nix [] b = b
  add_deps nix (dep ∷ deps) b =
      let (dep_nix, b') = node_of pg dep b in
      add_deps nix deps (record b' { graph = pg.add_edge nix dep_nix b'.graph })

  unfoldable pub add_pkgs : List (LockedPkg T) → Building T G → Building T G
  unfolding add_deps
  add_pkgs [] b = b
  add_pkgs (pkg ∷ pkgs) b =
      let (nix, b') = node_of pg pkg.sum b in add_pkgs pkgs (add_deps nix pkg.dependencies b')

  -- `From<LockfileToml> for Graph<Summary>`
  unfoldable pub of_lockfile : List (LockedPkg T) → G
  unfolding add_pkgs
  of_lockfile pkgs = (add_pkgs pkgs (record { graph = pg.empty; set = [] })).graph

-- Equality of locked packages, as it is derived.
module _ {T : Type 0} ⦃e : Eq T⦄ where
  abbrev pub list_beq : List T → List T → Bool
  list_beq [] [] = true
  list_beq [] (y ∷ ys) = false
  list_beq (x ∷ xs) [] = false
  list_beq (x ∷ xs) (y ∷ ys) = (x == y) && list_beq xs ys

  pub list_beq_refl : (xs : List T) → list_beq xs xs ≡ true
  list_beq_refl [] = refl
  list_beq_refl (x ∷ xs) = ground (arith, e.beq_refl x, list_beq_refl xs)

  pub list_beq_cong : (xs ys zs : List T) → list_beq xs ys ≡ true → list_beq xs zs ≡ list_beq ys zs
  list_beq_cong [] [] zs h = refl
  list_beq_cong [] (y ∷ ys) zs h = cc
  list_beq_cong (x ∷ xs) [] zs h = cc
  list_beq_cong (x ∷ xs) (y ∷ ys) [] h = refl
  list_beq_cong (x ∷ xs) (y ∷ ys) (z ∷ zs) h =
      ground (arith, h, e.beq_cong x y z, list_beq_cong xs ys zs)

  abbrev pub locked_beq : LockedPkg T → LockedPkg T → Bool
  locked_beq a b = (a.sum == b.sum) && list_beq a.dependencies b.dependencies

  pub locked_beq_refl : (a : LockedPkg T) → locked_beq a a ≡ true
  locked_beq_refl a = ground (arith, e.beq_refl a.sum, list_beq_refl a.dependencies)

  pub locked_beq_cong :
      (a b c : LockedPkg T) → locked_beq a b ≡ true → locked_beq a c ≡ locked_beq b c
  locked_beq_cong a b c h = ground (
    arith,
    h,
    e.beq_cong a.sum b.sum c.sum,
    list_beq_cong a.dependencies b.dependencies c.dependencies,
  )

  instance abbrev pub locked_eq : Eq (LockedPkg T)
  locked_eq = record { beq = locked_beq; beq_refl = locked_beq_refl; beq_cong = locked_beq_cong }

module _ {T G : Type 0} ⦃e : Eq T⦄ (pg : Petgraph T G) where
  -- An index that is out of range, and an `unwrap` of none, panic: there is no result.
  abbrev pub weights : List ℕ → G → Option (List T)
  weights [] g = some []
  weights (i ∷ is) g = and_some (pg.weight i g) λ w. and_some (weights is g) λ ws. some (w ∷ ws)

  abbrev pub locked : G → ℕ → Option (LockedPkg T)
  locked g i = and_some (pg.weight i g) λ pkg. and_some (find_id pg pkg g) λ id.
      and_some (weights (pg.outgoing id g) g)
        λ deps. some (record { sum = pkg; dependencies = deps })

  -- `IndexSet::from_iter`
  unfoldable pub from_iter : G → List ℕ → List (LockedPkg T) → Option (List (LockedPkg T))
  from_iter g [] set = some set
  from_iter g (i ∷ is) set = and_some (locked g i) λ pkg. from_iter g is (IndexSet.insert pkg set)

  -- `Into<LockfileToml> for Graph<Summary>`
  unfoldable pub to_lockfile : G → Option (List (LockedPkg T))
  unfolding from_iter
  to_lockfile g =
      and_some (root pg g) λ r. and_some (find_id pg r g) λ id. from_iter g (pg.bfs id g) []
