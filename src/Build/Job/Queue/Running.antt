-- ===== src/Build/Job/Queue/Running.antt =====
-- What holds of the queue between two steps of `exec_async`.
use elba.Prelude.{ℕ, true, false, List, ◌≡◌, ◌<◌, All, map}
use elba.Prelude.Members.{contains, IsDistinct}
use elba.Build.Target.{has_lib}
use elba.Build.Job.{fresh, Task, is_dirty, is_none}
use elba.Build.Job.Queue.{Shape, Jobs, JobQueue, is_bottom}

module _ {Source Hash Binary : Type 0} (g : Shape) (jobs : Jobs Source Hash Binary) where
  -- A spawned job is to do, can be done, and holds the binaries of all that it depends on.
  pub record IsRunning {Layout : Type 0} (t : Task Source Hash Binary Layout) : Type 0 where
    pub bottom : is_bottom g jobs t.job_index ≡ true
    pub in_range : t.job_index < g.size
    pub same_targets : t.targets ≡ (jobs t.job_index).targets
    pub all_deps : map (λ b. fresh b) t.deps ≡ map (λ c. (jobs c).work) (g.children t.job_index)

  -- Nothing that a job to do depends on is dropped.
  abbrev pub NothingMissing : Type 0
  NothingMissing =
      (j c : ℕ)
      → is_dirty (jobs j).work ≡ true
      → contains c (g.children j) ≡ true
      → is_none (jobs c).work ≡ false

  -- What a job depends on has a library to build.
  abbrev pub HasLibs : Type 0
  HasLibs = (j c : ℕ) → contains c (g.children j) ≡ true → has_lib (jobs c).targets ≡ true

pub record IsQueue {Source Hash Binary Layout FilePath : Type 0} (g : Shape)
    (q : JobQueue Source Hash Binary Layout FilePath) : Type 0 where
  pub same_jobs : q.ongoing ≡ map (λ t. t.job_index) q.futures
  pub distinct : IsDistinct q.ongoing
  pub running : All (IsRunning g q.jobs) q.futures
  pub needed : NothingMissing g q.jobs
  pub libs : HasLibs g q.jobs

module _ {Source Hash Binary Layout FilePath : Type 0} (g : Shape) where
  -- The queue after some jobs are spawned: the same graph, and no job forgotten.
  abbrev pub Started :
      JobQueue Source Hash Binary Layout FilePath
      → JobQueue Source Hash Binary Layout FilePath
      → Type 0
  Started q s =
      IsQueue g s
      × (s.jobs ≡ q.jobs)
      × ((j : ℕ) → contains j q.ongoing ≡ true → contains j s.ongoing ≡ true)

  -- All of `is` are ongoing.
  abbrev pub AllStarted :
      List ℕ
      → JobQueue Source Hash Binary Layout FilePath
      → JobQueue Source Hash Binary Layout FilePath
      → Type 0
  AllStarted is q s = Started q s × ((j : ℕ) → contains j is ≡ true → contains j s.ongoing ≡ true)

  -- No job can be spawned any more.
  abbrev pub IsOver : JobQueue Source Hash Binary Layout FilePath → Type 0
  IsOver s = IsQueue g s × ((i : ℕ) → i < g.size → is_bottom g s.jobs i ≡ false)
