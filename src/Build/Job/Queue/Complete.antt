-- ===== src/Build/Job/Queue/Complete.antt =====
-- `exec_async` on a graph without cycles.
use elba.Prelude.{
  ℕ, zero, suc, true, false, Option, map, ◌≡◌, refl, ◌<◌, inl, inr, arith, all_of, Bool-cases,
  clash,
}
use elba.Prelude.Members.{contains, all_of_each, count-from_to}
use elba.Prelude.Outcome.{Ends, Ends-and_then, ask}
use elba.Build.Job.{Work, no_work, fresh, dirty, Builder, is_dirty, is_fresh, is_none, binaries}
use elba.Build.Job.Queue.{Shape, Jobs, JobQueue, new_queue, exec_loop, exec}
use elba.Build.Job.Queue.Settle.{IsGraph}
use elba.Build.Job.Queue.Running.{IsOver, IsQueue, NothingMissing, HasLibs}
use elba.Build.Job.Queue.Exec.{exec_loop-IsOver}

-- The nodes can be numbered so that a dependency has a smaller number: there is no cycle.
abbrev pub IsRanked : Shape → (ℕ → ℕ) → Type 0
IsRanked g rank = (p c : ℕ) → contains c (g.children p) ≡ true → rank c < rank p

-- No job is left to do.
abbrev pub NothingDirty :
    {Source Hash Binary Layout FilePath : Type 0}
    → Shape
    → JobQueue Source Hash Binary Layout FilePath
    → Type 0
NothingDirty g q = (i : ℕ) → i < g.size → is_dirty (q.jobs i).work ≡ false

work-fresh :
    {Source Hash Binary : Type 0} (w : Work Source Hash Binary)
    → is_none w ≡ false
    → is_dirty w ≡ false
    → is_fresh w ≡ true
work-fresh no_work n d = cc
work-fresh (fresh b) n d = refl
work-fresh (dirty s h) n d = cc

module _ {Source Hash Binary Layout FilePath : Type 0} (g : Shape) (graph : IsGraph g)
    (rank : ℕ → ℕ) (ranked : IsRanked g rank) (calls : Builder Source Hash Binary Layout FilePath)
    (root_ol : Option Layout) where
  IsOver-NothingDirty :
      (q : JobQueue Source Hash Binary Layout FilePath) → IsOver g q → NothingDirty g q
  IsOver-NothingDirty q (h, over) i l = below (suc (rank i)) i l (omega arith)
    where
      below : (n i : ℕ) → i < g.size → rank i < n → is_dirty (q.jobs i).work ≡ false
      below zero i l r = absurd (omega (arith, r))
      below (suc n) i l r = elim (Bool-cases (is_dirty (q.jobs i).work)) [
        | inl d ↦
            let all : all_of (λ c. is_fresh (q.jobs c).work) (g.children i) ≡ true =
              all_of_each (λ c. is_fresh (q.jobs c).work) (g.children i)
                (λ c m.
                  work-fresh (q.jobs c).work (h.needed i c d m)
                    (below n c (graph.1 i c m) (omega (arith, r, ranked i c m)))) in
            clash (rw (d, all) refl) (over i l)
        | inr d ↦ d
      ]

  -- Without cycles, a loop with more fuel than there are packages ends with an error or with no job left.
  pub exec-NothingDirty :
      (choose : ℕ → ℕ) (fuel : ℕ) (jobs : Jobs Source Hash Binary)
      → NothingMissing g jobs
      → HasLibs g jobs
      → g.size < fuel
      → Ends (λ _ q. NothingDirty g q) (exec g calls root_ol choose fuel (new_queue jobs))
  unfolding exec
  exec-NothingDirty choose fuel jobs needed libs l =
      let start : IsQueue g (new_queue {Layout = Layout} {FilePath = FilePath} jobs) = record {
        same_jobs = refl;
        distinct = tt;
        running = tt;
        needed = needed;
        libs = libs;
      } in
      Ends-and_then (λ _ q. IsOver g q) (λ _ q. NothingDirty g q)
        (exec_loop g calls root_ol choose fuel (new_queue jobs))
        (λ _. ask (λ q. (binaries (map (λ c. (q.jobs c).work) (g.children 0)), q.bins)))
        (exec_loop-IsOver g graph calls root_ol choose fuel (new_queue jobs) start
          (omega (arith, l, count-from_to (λ j. is_dirty (jobs j).work) 0 g.size)))
        (λ _ q over. IsOver-NothingDirty q over)
