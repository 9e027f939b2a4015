-- ===== src/Build/Job/Layers.antt =====
-- build/job.rs, `JobQueue::new`: which packages of the graph are to build, found layer by layer from
-- the root.
pub mod Visit
pub mod Pass
pub mod Ready
use elba.Prelude.{
  ℕ, zero, suc, Bool, true, false, not, ◌&&◌, ◌||◌, Option, none, some, List, [], ◌∷◌, eqb, keep,
  is_nil, if◌then◌else◌,
}
use elba.Prelude.Members.{contains}
use elba.Prelude.Outcome.{M, ask, modify, try, pure, unfinished, ◌>>=◌, ◌>>◌}
use elba.Build.Target.{Target, lib, new_targets, is_codegen}
use elba.Build.Job.{Work, no_work, fresh, dirty, Job, Builder, is_none}
use elba.Build.Job.Queue.{Shape, Jobs}

-- The graph, and `next_layer`: a hash set, of which no order is known.
pub record Layer (Source Hash Binary : Type 0) : Type 0 where
  pub jobs : Jobs Source Hash Binary
  pub next : List ℕ

abbrev pub insert_node : ℕ → List ℕ → List ℕ
insert_node c xs = if contains c xs then xs else c ∷ xs

-- `extend`
abbrev pub insert_all : List ℕ → List ℕ → List ℕ
insert_all [] xs = xs
insert_all (c ∷ cs) xs = insert_all cs (insert_node c xs)

-- `Job::default`
unfoldable pub default_job : {Source Hash Binary : Type 0} → Job Source Hash Binary
unfolding new_targets
default_job = record { work = no_work; targets = new_targets (lib false ∷ []) }

module _ {Source Hash Binary : Type 0} where
  abbrev pub set_job :
      ℕ → Job Source Hash Binary → Jobs Source Hash Binary → Jobs Source Hash Binary
  set_job i job jobs = λ j. if eqb i j then job else jobs j

-- What `JobQueue::new` is given: the sources of the graph's nodes, the targets of the root package, the
-- layout of the root package and the `codegen` of the build context.
pub record Config (Source Layout : Type 0) : Type 0 where
  pub source : ℕ → Source
  pub root : List Target
  pub root_ol : Option Layout
  pub codegen : Bool

module _ {Source Hash Binary Layout FilePath : Type 0} (g : Shape)
    (calls : Builder Source Hash Binary Layout FilePath) (cfg : Config Source Layout) where
  abbrev pub targets_of : ℕ → List Target
  unfolding new_targets
  targets_of node = if eqb node 0 then cfg.root else new_targets (lib false ∷ [])

  abbrev pub hash_of : ℕ → Hash
  hash_of node =
      calls.build_hash node (targets_of node)
        ((not (eqb node 0) || cfg.codegen) && is_codegen (targets_of node))

  abbrev built_in : Option Layout → Hash → Bool
  built_in none hash = false
  built_in (some ol) hash = calls.is_built ol hash

  -- The root package is there as it was built before.
  abbrev pub root_built : ℕ → Bool
  root_built node = eqb node 0 && built_in cfg.root_ol (hash_of node)

  abbrev pub put_work :
      ℕ → Work Source Hash Binary → Layer Source Hash Binary → Layer Source Hash Binary
  put_work node w s = record s {
    jobs = set_job node (record { work = w; targets = targets_of node }) s.jobs;
  }

  -- The children that have not been visited yet.
  abbrev pub unvisited : ℕ → Jobs Source Hash Binary → List ℕ
  unvisited node jobs = keep (λ c. is_none (jobs c).work) (g.children node)

  abbrev pub visited : ℕ → Option Binary → Layer Source Hash Binary → Layer Source Hash Binary
  visited node (some binary) s = put_work node (fresh binary) s
  visited node none s =
      put_work node (dirty (cfg.source node) (hash_of node))
        (record s { next = insert_all (unvisited node s.jobs) s.next })

  -- The body of the loop over a layer.
  unfoldable pub visit : ℕ → M (Layer Source Hash Binary) (Unit {0})
  visit node =
      let check = (do
        binary ← try (calls.checkout_build (hash_of node))
        modify (visited node binary)) in
      if root_built node then modify (put_work node no_work) else check

  unfoldable pub visit_all : List ℕ → M (Layer Source Hash Binary) (Unit {0})
  unfolding visit
  visit_all [] = pure tt
  visit_all (node ∷ nodes) = visit node >> visit_all nodes

  -- The outer loop. `drain` says in which order the set of a round is drained.
  unfoldable pub layers : (ℕ → List ℕ → List ℕ) → ℕ → M (Layer Source Hash Binary) (Unit {0})
  unfolding visit_all
  layers drain zero = λ s. unfinished s
  layers drain (suc fuel) =
      let again = λ (nodes : List ℕ). (do
        modify (λ s. record s { next = [] })
        visit_all (drain fuel nodes)
        layers drain fuel) in
      (do nodes ← ask (λ s. s.next); if is_nil nodes then pure tt else again nodes)

  -- `JobQueue::new`
  unfoldable pub new_jobs : (ℕ → List ℕ → List ℕ) → ℕ → M (Layer Source Hash Binary) (Unit {0})
  unfolding layers
  new_jobs drain fuel =
      modify (λ s. record { jobs = λ i. default_job; next = 0 ∷ [] }) >> layers drain fuel
