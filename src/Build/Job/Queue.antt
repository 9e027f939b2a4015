-- ===== src/Build/Job/Queue.antt =====
-- build/job.rs, `exec_async`: the jobs are built in parallel, dependencies first.
pub mod Settle
pub mod Running
pub mod Start
pub mod Await
pub mod Finish
pub mod Exec
pub mod Complete
use elba.Prelude.{
  ℕ, zero, suc, Bool, true, false, not, ◌&&◌, Option, none, some, List, [], ◌∷◌, ◌++◌, map, eqb,
  all_of, keep, is_nil, if◌then◌else◌,
}
use elba.Prelude.Members.{contains, from_to}
use elba.Prelude.Outcome.{
  M, Result, ok, err, build_failed, done, fail, panic, unfinished, ask, modify, unwrap, try, throw,
  pure, on_result, ◌>>=◌, ◌>>◌,
}
use elba.Prelude.Text.{Text}
use elba.Build.Job.{
  Work, no_work, fresh, dirty, Job, Builder, Task, Built, is_dirty, is_fresh, is_none, binaries,
  compile_target,
}

-- The graph without its weights, as `petgraph` gives it: the number of nodes, and the neighbours of a
-- node in either direction.
pub record Shape : Type 0 where
  pub size : ℕ
  pub children : ℕ → List ℕ
  pub parents : ℕ → List ℕ

abbrev pub Jobs : Type 0 → Type 0 → Type 0 → Type 0
Jobs Source Hash Binary = ℕ → Job Source Hash Binary

-- The queue and the variables of `exec_async`. The weights of the graph are a function of the index.
pub record JobQueue (Source Hash Binary Layout FilePath : Type 0) : Type 0 where
  pub jobs : Jobs Source Hash Binary
  pub ongoing : List ℕ
  pub futures : List (Task Source Hash Binary Layout)
  pub bins : List (FilePath × Text)

-- The variables of `exec_async` before its loop.
abbrev pub new_queue :
    {Source Hash Binary Layout FilePath : Type 0}
    → Jobs Source Hash Binary
    → JobQueue Source Hash Binary Layout FilePath
new_queue jobs = record { jobs = jobs; ongoing = []; futures = []; bins = [] }

module _ {Source Hash Binary : Type 0} where
  abbrev pub set_work :
      ℕ → Work Source Hash Binary → Jobs Source Hash Binary → Jobs Source Hash Binary
  set_work i w jobs = λ j. if eqb i j then record (jobs j) { work = w } else jobs j

  unfoldable pub clear_all : List ℕ → Jobs Source Hash Binary → Jobs Source Hash Binary
  clear_all [] jobs = jobs
  clear_all (c ∷ cs) jobs = clear_all cs (set_work c no_work jobs)

  abbrev pub result_work : Option Binary → Work Source Hash Binary → Work Source Hash Binary
  result_work (some b) w = fresh b
  result_work none w = if is_dirty w then no_work else w

  module _ (g : Shape) (jobs : Jobs Source Hash Binary) where
    -- Jobs to do whose dependencies are all there.
    abbrev pub is_bottom : ℕ → Bool
    is_bottom i = is_dirty (jobs i).work && all_of (λ c. is_fresh (jobs c).work) (g.children i)

    abbrev pub bottom_jobs : List ℕ
    bottom_jobs = keep is_bottom (from_to 0 g.size)

    abbrev pub all_parents_fresh : ℕ → Bool
    all_parents_fresh c = all_of (λ p. is_fresh (jobs p).work) (g.parents c)

  module _ (g : Shape) where
    -- The work of the finished job is set, and the children that nothing needs any more are dropped.
    abbrev pub settle : ℕ → Option Binary → Jobs Source Hash Binary → Jobs Source Hash Binary
    settle i binary jobs =
        let jobs' = set_work i (result_work binary (jobs i).work) jobs in
        clear_all (keep (all_parents_fresh g jobs') (g.children i)) jobs'

-- `select_all` resolves to any of the futures: the one that is chosen, and the others.
abbrev pub take_at : {A : Type 0} → ℕ → List A → Option (A × List A)
take_at k [] = none
take_at k (x ∷ []) = some (x, [])
take_at zero (x ∷ y ∷ ys) = some (x, y ∷ ys)
take_at (suc k) (x ∷ y ∷ ys) = elim (take_at k (y ∷ ys)) [
  | none ↦ none
  | some (a, rest) ↦ some (a, x ∷ rest)
]

module _ {Source Hash Binary Layout FilePath : Type 0} (g : Shape) where
  abbrev pub finish :
      Task Source Hash Binary Layout
      → List (Task Source Hash Binary Layout)
      → Built Binary FilePath
      → JobQueue Source Hash Binary Layout FilePath
      → JobQueue Source Hash Binary Layout FilePath
  finish t rest built q = record {
    jobs = settle g t.job_index built.res q.jobs;
    ongoing = keep (λ j. not (eqb j t.job_index)) q.ongoing;
    futures = rest;
    bins = q.bins ++ built.bins;
  }

module _ {Source Hash Binary Layout FilePath : Type 0} (g : Shape)
    (calls : Builder Source Hash Binary Layout FilePath) (root_ol : Option Layout) where
  abbrev layout_of : ℕ → Hash → Result Layout
  layout_of i hash =
      if eqb i 0
      then elim root_ol [ some x ↦ ok x | none ↦ calls.checkout_tmp hash ]
      else calls.checkout_tmp hash

  abbrev given : Option Layout → Bool
  given none = false
  given (some l) = true

  -- `unreachable!()` is the second clause.
  abbrev task_of :
      ℕ
      → Jobs Source Hash Binary
      → Work Source Hash Binary
      → M (JobQueue Source Hash Binary Layout FilePath) (Task Source Hash Binary Layout)
  task_of i jobs (dirty source hash) = do
    layout ← try (layout_of i hash)
    pure (record {
      job_index = i;
      source = source;
      hash = hash;
      targets = (jobs i).targets;
      deps = binaries (map (λ c. (jobs c).work) (g.children i));
      layout = layout;
      is_root = given root_ol;
    })
  task_of i jobs _ = λ q. panic

  abbrev pub complete_job :
      ℕ → M (JobQueue Source Hash Binary Layout FilePath) (Task Source Hash Binary Layout)
  complete_job i = do q ← ask (λ q. q); task_of i q.jobs (q.jobs i).work

  abbrev pub start_job : ℕ → M (JobQueue Source Hash Binary Layout FilePath) (Unit {0})
  start_job i = do
    task ← complete_job i
    modify (λ q. record q { futures = q.futures ++ task ∷ []; ongoing = q.ongoing ++ i ∷ [] })

  unfoldable pub start_jobs : List ℕ → M (JobQueue Source Hash Binary Layout FilePath) (Unit {0})
  start_jobs [] = pure tt
  start_jobs (i ∷ is) = do
    q ← ask (λ q. q)
    if contains i q.ongoing then pure tt else start_job i
    start_jobs is

  -- The `match job_res`.
  abbrev pub handle :
      Task Source Hash Binary Layout
      → List (Task Source Hash Binary Layout)
      → Result (Built Binary FilePath)
      → M (JobQueue Source Hash Binary Layout FilePath) (Unit {0})
  handle t rest (ok built) = modify (finish g t rest built)
  handle t rest (err e) = throw build_failed

  -- One job is awaited.
  unfoldable pub await_one : ℕ → M (JobQueue Source Hash Binary Layout FilePath) (Unit {0})
  unfolding compile_target clear_all
  await_one k = do
    q ← ask (λ q. q)
    (t, rest) ← unwrap (take_at k q.futures)
    handle t rest (compile_target calls t)

  -- The loop; `choose` says which of the futures is ready first in each round.
  unfoldable pub exec_loop :
      (ℕ → ℕ) → ℕ → M (JobQueue Source Hash Binary Layout FilePath) (Unit {0})
  unfolding start_jobs await_one
  exec_loop choose zero = λ q. unfinished q
  exec_loop choose (suc fuel) =
      let next = (do await_one (choose fuel); exec_loop choose fuel) in
      (do
        jobs ← ask (λ q. q.jobs)
        start_jobs (bottom_jobs g jobs)
        q ← ask (λ q. q)
        if is_nil q.ongoing then pure tt else next)

  -- `exec_async`, with the clearing of the build directory left out: the binaries of the root's
  -- dependencies, and the executables.
  unfoldable pub exec :
      (ℕ → ℕ)
      → ℕ
      → M (JobQueue Source Hash Binary Layout FilePath) (List Binary × List (FilePath × Text))
  unfolding exec_loop
  exec choose fuel = do
    exec_loop choose fuel
    q ← ask (λ q. q)
    pure (binaries (map (λ c. (q.jobs c).work) (g.children 0)), q.bins)
