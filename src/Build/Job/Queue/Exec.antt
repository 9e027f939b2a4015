-- ===== src/Build/Job/Queue/Exec.antt =====
-- `exec_async`: a round of the loop, and the loop, for any order in which jobs are ready.
use elba.Prelude.{
  ℕ, zero, suc, true, false, Option, List, [], ◌∷◌, ◌≡◌, refl, sym, ap, subst, ◌∙◌, ◌<◌, inl, inr,
  arith, map, Bool-cases, clash, is_nil, if◌then◌else◌,
}
use elba.Prelude.Members.{
  contains, IsDistinct, contains-keep, from_to, contains-from_to, contains-from_to_lt, nil-absent,
}
use elba.Prelude.Outcome.{Result, ok, err, Holds, Ends, Ends-and_then, EndsOr-Ends, pure, ◌>>◌}
use elba.Build.Target.{has_lib}
use elba.Build.Job.{Builder, Task, Built, compile_target}
use elba.Build.Job.Queue.{
  Shape, Jobs, JobQueue, is_bottom, bottom_jobs, start_jobs, handle, await_one, exec_loop,
}
use elba.Build.Job.Queue.Settle.{IsGraph}
use elba.Build.Job.Queue.Running.{IsRunning, IsQueue, AllStarted, IsOver}
use elba.Build.Job.Queue.Start.{NoLayout, start_jobs-Started}
use elba.Build.Job.Queue.Await.{IsTaken, HasBinary, take_at-IsTaken, compile_target-HasBinary}
use elba.Build.Job.Queue.Finish.{dirty_count, Advanced, finish-IsQueue, finish-dirty_count}

is_nil-map : {A : Type 0} (f : A → ℕ) (xs : List A) → is_nil (map f xs) ≡ false → is_nil xs ≡ false
is_nil-map f [] h = cc
is_nil-map f (x ∷ xs) h = refl

module _ {Source Hash Binary Layout FilePath : Type 0} (g : Shape) (graph : IsGraph g)
    (calls : Builder Source Hash Binary Layout FilePath) (root_ol : Option Layout) where
  handle-Advanced :
      (q : JobQueue Source Hash Binary Layout FilePath)
      → IsQueue g q
      → (t : Task Source Hash Binary Layout) (rest : List (Task Source Hash Binary Layout))
      → IsTaken (IsRunning g q.jobs) (λ t. t.job_index) q.futures (t, rest)
      → (r : Result (Built Binary FilePath)) → (has_lib t.targets ≡ true → Holds (HasBinary) r)
      → Ends (λ _ s. Advanced g q s) (handle g calls root_ol t rest r q)
  handle-Advanced q h t rest taken (ok built) has = (
    finish-IsQueue g graph q h t rest taken built has,
    finish-dirty_count g graph q h t rest taken built has,
  )
  handle-Advanced q h t rest taken (err e) has = tt

  -- When a job is done, the jobs that are still running keep all that they depend on, no job that a job
  -- to do depends on is dropped, and fewer jobs are to do; a job that cannot be built is an error, and
  -- nothing panics.
  pub await_one-Advanced :
      (k : ℕ) (q : JobQueue Source Hash Binary Layout FilePath)
      → IsQueue g q
      → is_nil q.ongoing ≡ false
      → Ends (λ _ s. Advanced g q s) (await_one g calls root_ol k q)
  unfolding await_one
  await_one-Advanced k q h n =
      let some_left : is_nil q.futures ≡ false =
        is_nil-map (λ t. t.job_index) q.futures (ap is_nil (sym h.same_jobs) ∙ n) in
      let ((t, rest), e, taken) =
        take_at-IsTaken (IsRunning g q.jobs) (λ t. t.job_index) k q.futures some_left h.running
          (subst IsDistinct h.same_jobs h.distinct) in
      rw e (
        handle-Advanced q h t rest taken (compile_target calls t)
          (compile_target-HasBinary calls t))

  bottom_jobs-Bottom :
      (jobs : Jobs Source Hash Binary) (i : ℕ)
      → contains i (bottom_jobs g jobs) ≡ true
      → (is_bottom g jobs i ≡ true) × (i < g.size)
  bottom_jobs-Bottom jobs i m =
      let both = sym (contains-keep (is_bottom g jobs) (from_to 0 g.size) i) ∙ m in
      let lt = contains-from_to_lt i 0 g.size (ground (arith, both)) in
      (ground (arith, both), omega (arith, lt))

  Started-IsOver :
      (q s : JobQueue Source Hash Binary Layout FilePath)
      → AllStarted g (bottom_jobs g q.jobs) q s
      → is_nil s.ongoing ≡ true
      → IsOver g s
  Started-IsOver q s ((h, e, more), all) n = (
    h,
    λ i l. elim (Bool-cases (is_bottom g s.jobs i)) [
      | inl b ↦
          let member : contains i (bottom_jobs g q.jobs) ≡ true =
            contains-keep (is_bottom g q.jobs) (from_to 0 g.size) i
            ∙ rw (contains-from_to i 0 g.size (omega arith) (omega (arith, l)))
                (subst (λ jobs. is_bottom g jobs i ≡ true) e b) in
          clash (all i member) (nil-absent s.ongoing i n)
      | inr b ↦ b
    ],
  )

  -- With more fuel than there are jobs to do, the loop ends by itself, in whatever order jobs are ready:
  -- with an error, or when no job is to do of which the dependencies are there.
  pub exec_loop-IsOver :
      (choose : ℕ → ℕ) (fuel : ℕ) (q : JobQueue Source Hash Binary Layout FilePath)
      → IsQueue g q
      → dirty_count g q < fuel
      → Ends (λ _ s. IsOver g s) (exec_loop g calls root_ol choose fuel q)
  unfolding exec_loop
  exec_loop-IsOver choose zero q h l = absurd (omega (arith, l))
  exec_loop-IsOver choose (suc fuel) q h l =
      Ends-and_then (λ _ s. AllStarted g (bottom_jobs g q.jobs) q s) (λ _ s. IsOver g s)
        (start_jobs g calls root_ol (bottom_jobs g q.jobs) q)
        (λ _ s.
          (if is_nil s.ongoing
              then pure tt
              else (await_one g calls root_ol (choose fuel)
                  >> exec_loop g calls root_ol choose fuel))
            s)
        (EndsOr-Ends (NoLayout g calls root_ol (bottom_jobs g q.jobs) q)
          (λ _ s. AllStarted g (bottom_jobs g q.jobs) q s)
          (start_jobs g calls root_ol (bottom_jobs g q.jobs) q)
          (start_jobs-Started g calls root_ol (bottom_jobs g q.jobs) q h
            (bottom_jobs-Bottom q.jobs)))
        (λ _ s st. elim (Bool-cases (is_nil s.ongoing)) [
          | inl n ↦ rw n (Started-IsOver q s st n)
          | inr n ↦ rw n (
              Ends-and_then (λ _ r. Advanced g s r) (λ _ r. IsOver g r)
                (await_one g calls root_ol (choose fuel) s)
                (λ _. exec_loop g calls root_ol choose fuel)
                (await_one-Advanced (choose fuel) s st.0.0 n)
                (λ _ r a. exec_loop-IsOver choose fuel r a.0 (
                  omega
                    (arith, a.1, l, ap (λ jobs. dirty_count g (record s { jobs = jobs })) st.0.1))))
        ])
