-- ===== src/Build/Job.antt =====
-- build/job.rs: the jobs of a build, and the compilation of the targets of one.
pub mod Queue
pub mod Layers
pub mod Whole
use elba.Prelude.{
  ℕ, Bool, true, false, not, Option, none, some, List, [], ◌∷◌, ◌++◌, eqb, if◌then◌else◌,
}
use elba.Prelude.Outcome.{Result, ok, err, and_ok}
use elba.Prelude.Text.{Text}
use elba.Build.Target.{Target, lib, bin, test, doc, has_lib}

pub data Work (Source Hash Binary : Type 0) : Type 0 where
  no_work : Work Source Hash Binary
  fresh : (binary : Binary) → Work Source Hash Binary
  dirty : (source : Source) (hash : Hash) → Work Source Hash Binary

pub record Job (Source Hash Binary : Type 0) : Type 0 where
  pub work : Work Source Hash Binary
  pub targets : List Target

module _ {Source Hash Binary : Type 0} where
  abbrev pub is_none : Work Source Hash Binary → Bool
  is_none no_work = true
  is_none _ = false

  abbrev pub is_dirty : Work Source Hash Binary → Bool
  is_dirty (dirty source hash) = true
  is_dirty _ = false

  abbrev pub is_fresh : Work Source Hash Binary → Bool
  is_fresh (fresh binary) = true
  is_fresh _ = false

  -- The binaries of the jobs that have one.
  abbrev pub binaries : List (Work Source Hash Binary) → List Binary
  binaries [] = []
  binaries (fresh binary ∷ ws) = binary ∷ binaries ws
  binaries (no_work ∷ ws) = binaries ws
  binaries (dirty source hash ∷ ws) = binaries ws

-- What a build calls of the cache and of the compiler, which are files and processes.
pub record Builder (Source Hash Binary Layout FilePath : Type 0) : Type 0 where
  -- `BuildHash::new` of a node, its targets and whether code is generated
  pub build_hash : ℕ → List Target → Bool → Hash
  pub is_built : Layout → Hash → Bool
  pub checkout_build : Hash → Result (Option Binary)
  pub checkout_tmp : Hash → Result Layout
  pub compile_lib : Source → Bool → List Binary → Layout → Result (Unit {0})
  pub store_build : Layout → Hash → Result Binary
  -- `DirLock::acquire(&layout.lib)` and `Binary::new`
  pub acquire_lib : Layout → Result Binary
  pub compile_bin : Source → Target → List Binary → Layout → Result (Option FilePath)
  pub compile_doc : Source → List Binary → Layout → Result (Unit {0})
  pub summary : Source → Text

-- The arguments of `compile_target`: what a spawned job holds on to.
pub record Task (Source Hash Binary Layout : Type 0) : Type 0 where
  pub job_index : ℕ
  pub source : Source
  pub hash : Hash
  pub targets : List Target
  pub deps : List Binary
  pub layout : Layout
  pub is_root : Bool

-- What a compilation has given so far.
pub record Built (Binary FilePath : Type 0) : Type 0 where
  pub res : Option Binary
  pub bins : List (FilePath × Text)

module _ {Source Hash Binary Layout FilePath : Type 0}
    (calls : Builder Source Hash Binary Layout FilePath) (t : Task Source Hash Binary Layout) where
  -- The binary of the library: the root's stays in its layout, any other is stored in the cache.
  abbrev pub lib_binary : Result Binary
  lib_binary =
      if eqb t.job_index 0
      then (if t.is_root then calls.acquire_lib t.layout else calls.store_build t.layout t.hash)
      else calls.store_build t.layout t.hash

  -- A binary and a test depend on the library of their own package too, if there is one.
  abbrev pub own_deps : Result (List Binary)
  own_deps =
      if has_lib t.targets
      then and_ok (calls.acquire_lib t.layout) (λ root_lib. ok (t.deps ++ root_lib ∷ []))
      else ok t.deps

  abbrev pub push_bin : Option FilePath → Built Binary FilePath → Built Binary FilePath
  push_bin none b = b
  push_bin (some p) b = record b { bins = b.bins ++ (p, calls.summary t.source) ∷ [] }

  -- One round of the loop.
  abbrev pub compile_one : Target → Built Binary FilePath → Result (Built Binary FilePath)
  compile_one (lib cg) b =
      and_ok (calls.compile_lib t.source cg t.deps t.layout)
        λ _. and_ok lib_binary λ binary. ok (record b { res = some binary })
  compile_one (bin ix) b = and_ok own_deps λ deps.
      and_ok (calls.compile_bin t.source (bin ix) deps t.layout) λ path. ok (push_bin path b)
  compile_one (test ix) b =
      and_ok own_deps
        λ deps. and_ok (calls.compile_bin t.source (test ix) deps t.layout) λ path. ok b
  compile_one doc b = and_ok (calls.compile_doc t.source t.deps t.layout) λ _. ok b

  unfoldable pub compile_all : List Target → Built Binary FilePath → Result (Built Binary FilePath)
  compile_all [] b = ok b
  compile_all (target ∷ targets) b = and_ok (compile_one target b) (compile_all targets)

  unfoldable pub compile_target : Result (Built Binary FilePath)
  unfolding compile_all
  compile_target = compile_all t.targets (record { res = none; bins = [] })
