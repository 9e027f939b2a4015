-- ===== src/Build/Job/Queue/Start.antt =====
-- `exec_async`, the jobs that are spawned in a round.
use mathlib.Core.List.{map-append}
use elba.Prelude.{
  ℕ, true, false, Option, List, [], ◌∷◌, ◌++◌, ◌≡◌, refl, sym, ap, subst, ◌∙◌, ◌<◌, inl, inr, arith,
  All-append, map, all_of, Bool-cases, eqb,
}
use elba.Prelude.Members.{contains, contains-append, IsDistinct-snoc}
use elba.Prelude.Outcome.{Error, err, modify, EndsOr, EndsOr-and_then, EndsOr-weaken, Result-cases}
use elba.Build.Job.{Work, no_work, fresh, dirty, Builder, Task, is_dirty, is_fresh, binaries}
use elba.Build.Job.Queue.{
  Shape, Jobs, JobQueue, is_bottom, task_of, layout_of, start_job, start_jobs,
}
use elba.Build.Job.Queue.Running.{IsRunning, IsQueue, Started, AllStarted}

-- The binaries of fresh jobs are all of their works.
binaries-all :
    {Source Hash Binary : Type 0} (jobs : Jobs Source Hash Binary) (cs : List ℕ)
    → all_of (λ c. is_fresh (jobs c).work) cs ≡ true
    → map (λ b. fresh b) (binaries (map (λ c. (jobs c).work) cs)) ≡ map (λ c. (jobs c).work) cs
binaries-all jobs [] h = refl
binaries-all {Source} {Hash} {Binary} jobs (c ∷ cs) h =
    by_work (jobs c).work (ground (arith, h)) (binaries-all jobs cs (ground (arith, h)))
  where
    by_work :
        (w : Work Source Hash Binary)
        → is_fresh w ≡ true
        → map (λ b. fresh b) (binaries (map (λ c. (jobs c).work) cs)) ≡ map (λ c. (jobs c).work) cs
        → map (λ b. fresh b) (binaries (w ∷ map (λ c. (jobs c).work) cs))
          ≡ w ∷ map (λ c. (jobs c).work) cs
    by_work no_work f r = cc
    by_work (fresh b) f r = ap (λ ws. fresh b ∷ ws) r
    by_work (dirty s k) f r = cc

module _ {Source Hash Binary Layout FilePath : Type 0} (g : Shape)
    (calls : Builder Source Hash Binary Layout FilePath) (root_ol : Option Layout) where
  -- The error of the layout of a job to do.
  abbrev pub Unplaced : ℕ → Work Source Hash Binary → Error → Type 0
  Unplaced i w x =
      (source : Source) × (hash : Hash) × (w ≡ dirty source hash)
      × (layout_of g calls root_ol i hash ≡ err x)

  -- The error is that of a layout, for a job to do among `is` that is not ongoing.
  abbrev pub NoLayout : List ℕ → JobQueue Source Hash Binary Layout FilePath → Error → Type 0
  NoLayout is q x =
      (i : ℕ) × (contains i is ≡ true)
      × (contains i q.ongoing ≡ false)
      × Unplaced i (q.jobs i).work x

  task_of-IsRunning :
      (i : ℕ) (q : JobQueue Source Hash Binary Layout FilePath) (w : Work Source Hash Binary)
      → is_dirty w ≡ true
      → is_bottom g q.jobs i ≡ true
      → i < g.size
      → EndsOr
          (Unplaced i w)
          (λ t s. (s ≡ q) × (t.job_index ≡ i) × IsRunning g q.jobs t)
          (task_of g calls root_ol i q.jobs w q)
  task_of-IsRunning i q no_work d b l = cc
  task_of-IsRunning i q (fresh x) d b l = cc
  task_of-IsRunning i q (dirty source hash) d b l =
      elim (Result-cases (layout_of g calls root_ol i hash)) [
        | inl (x, r) ↦ rw r (source, hash, refl, r)
        | inr (layout, r) ↦ rw r (
          refl,
          refl,
          record {
            bottom = b;
            in_range = l;
            same_targets = refl;
            all_deps = binaries-all q.jobs (g.children i) (ground (arith, b));
          },
        )
      ]

  start_job-Started :
      (i : ℕ) (q : JobQueue Source Hash Binary Layout FilePath)
      → IsQueue g q
      → is_bottom g q.jobs i ≡ true
      → i < g.size
      → contains i q.ongoing ≡ false
      → EndsOr
          (Unplaced i (q.jobs i).work)
          (λ _ s. Started g q s × (contains i s.ongoing ≡ true))
          (start_job g calls root_ol i q)
  start_job-Started i q h b l n =
      EndsOr-and_then (Unplaced i (q.jobs i).work)
        (λ t s. (s ≡ q) × (t.job_index ≡ i) × IsRunning g q.jobs t)
        (λ _ s. Started g q s × (contains i s.ongoing ≡ true))
        (task_of g calls root_ol i q.jobs (q.jobs i).work q) (λ t. modify (add_task t))
        (task_of-IsRunning i q (q.jobs i).work (ground (arith, b)) b l)
        (λ t s r.
          subst (λ z. Started g q (add_task t z) × (contains i (add_task t z).ongoing ≡ true))
            (sym r.0) (added t r.1 r.2))
    where
      add_task :
          Task Source Hash Binary Layout
          → JobQueue Source Hash Binary Layout FilePath
          → JobQueue Source Hash Binary Layout FilePath
      add_task t q = record q { futures = q.futures ++ t ∷ []; ongoing = q.ongoing ++ i ∷ [] }

      added :
          (t : Task Source Hash Binary Layout)
          → t.job_index ≡ i
          → IsRunning g q.jobs t
          → Started g q (add_task t q) × (contains i (add_task t q).ongoing ≡ true)
      added t same r = (
        (
          record {
            same_jobs =
                ap (λ is. is ++ i ∷ []) h.same_jobs
                ∙ ap (λ j. map (λ t'. t'.job_index) q.futures ++ j ∷ []) (sym same)
                ∙ sym (map-append (λ t'. t'.job_index) q.futures (t ∷ []));
            distinct = IsDistinct-snoc q.ongoing i h.distinct n;
            running = All-append (IsRunning g q.jobs) q.futures (t ∷ []) h.running (r, tt);
            needed = h.needed;
            libs = h.libs;
          },
          refl,
          λ j m. contains-append q.ongoing (i ∷ []) j ∙ ground (arith, m),
        ),
        contains-append q.ongoing (i ∷ []) i ∙ ground arith,
      )

  AllStarted-cons :
      (i : ℕ) (is : List ℕ) (q s r : JobQueue Source Hash Binary Layout FilePath)
      → Started g q s × (contains i s.ongoing ≡ true)
      → AllStarted g is s r
      → AllStarted g (i ∷ is) q r
  AllStarted-cons i is q s r (h, m) ((k, e, more), all) = (
    (k, e ∙ h.1, λ j n. more j (h.2 j n)),
    λ j n. elim (Bool-cases (eqb i j)) [
      | inl b ↦
          let same : i ≡ j = ground (arith, b) in
          subst (λ z. contains z r.ongoing ≡ true) same (more i m)
      | inr b ↦ all j (rw b at n)
    ],
  )

  NoLayout-cons :
      (i : ℕ) (is : List ℕ) (q s : JobQueue Source Hash Binary Layout FilePath)
      → Started g q s
      → (x : Error) → NoLayout is s x
      → NoLayout (i ∷ is) q x
  NoLayout-cons i is q s (h, same, more) x (j, m, n, (source, hash, w, r)) = (
    j,
    ground (arith, m),
    elim (Bool-cases (contains j q.ongoing)) [ inl on ↦ cc (n, more j on) | inr off ↦ off ],
    (source, hash, ap (λ jobs. (jobs j).work) (sym same) ∙ w, r),
  )

  -- Of jobs that are to do and can be done, those that are not ongoing are spawned once, each with the
  -- binaries of all that it depends on; all are ongoing then, and the graph is as it was. The only error is
  -- that of a layout that cannot be had for one of those jobs.
  pub start_jobs-Started :
      (is : List ℕ) (q : JobQueue Source Hash Binary Layout FilePath)
      → IsQueue g q
      → ((i : ℕ) → contains i is ≡ true → (is_bottom g q.jobs i ≡ true) × (i < g.size))
      → EndsOr (NoLayout is q) (λ _ s. AllStarted g is q s) (start_jobs g calls root_ol is q)
  unfolding start_jobs
  start_jobs-Started [] q h b = ((h, refl, λ j m. m), λ j m. cc)
  start_jobs-Started (i ∷ is) q h b =
      let first = b i (ground arith) in
      let others =
        λ (s : JobQueue Source Hash Binary Layout FilePath)
            (st : Started g q s × (contains i s.ongoing ≡ true)).
          EndsOr-weaken (NoLayout is s) (NoLayout (i ∷ is) q) (λ _ r. AllStarted g is s r)
            (λ _ r. AllStarted g (i ∷ is) q r) (start_jobs g calls root_ol is s)
            (start_jobs-Started is s st.0.0 (λ j m. (
              subst (λ jobs. is_bottom g jobs j ≡ true) (sym st.0.1) (b j (ground (arith, m))).0,
              (b j (ground (arith, m))).1,
            )))
            (NoLayout-cons i is q s st.0) (λ _ r. AllStarted-cons i is q s r st) in
      elim (Bool-cases (contains i q.ongoing)) [
        | inl m ↦ rw m (others q ((h, refl, λ j k. k), m))
        | inr n ↦ rw n (
            EndsOr-and_then (NoLayout (i ∷ is) q)
              (λ _ s. Started g q s × (contains i s.ongoing ≡ true))
              (λ _ r. AllStarted g (i ∷ is) q r) (start_job g calls root_ol i q)
              (λ _. start_jobs g calls root_ol is)
              (EndsOr-weaken (Unplaced i (q.jobs i).work) (NoLayout (i ∷ is) q)
                (λ _ s. Started g q s × (contains i s.ongoing ≡ true))
                (λ _ s. Started g q s × (contains i s.ongoing ≡ true))
                (start_job g calls root_ol i q) (start_job-Started i q h first.0 first.1 n)
                (λ x u. (i, ground arith, n, u)) (λ _ s st. st))
              (λ _ s. others s))
      ]
