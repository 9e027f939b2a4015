-- ===== src/Tests/Building.antt =====
-- Samples for the targets and the job queue: a package that depends on two others, one of which
-- depends on the other.
use elba.Prelude.{
  ℕ, zero, suc, true, false, Option, none, some, List, [], ◌∷◌, ◌≡◌, ◌<◌, refl, arith, keep, eqb,
  any_of, ◌||◌, if◌then◌else◌,
}
use elba.Prelude.Members.{contains, from_to}
use elba.Prelude.Text.{Text}
use elba.Prelude.Outcome.{Outcome, done, ok, Ends, EndsOr}
use elba.Build.Target.{
  lib, bin, test, doc, new_targets, sort_targets, insert_target, collect_targets, has_lib, is_lib,
  is_doc,
}
use elba.Build.Target.Bytes.{as_bytes-inj}
use elba.Build.Target.Order.{LibFirst, new_targets-LibFirst}
use elba.Build.Job.{dirty, Builder, Task, is_dirty, compile_target, compile_all}
use elba.Build.Job.Queue.{
  Shape, Jobs, JobQueue, is_bottom, exec, exec_loop, start_jobs, await_one, clear_all, new_queue,
}
use elba.Build.Job.Queue.Settle.{IsGraph}
use elba.Build.Job.Queue.Running.{IsQueue, AllStarted, IsOver}
use elba.Build.Job.Queue.Start.{NoLayout, start_jobs-Started}
use elba.Build.Job.Queue.Finish.{Advanced}
use elba.Build.Job.Queue.Exec.{await_one-Advanced, exec_loop-IsOver}
use elba.Build.Job.Layers.{Layer, Config, new_jobs, layers, visit_all, visit, default_job}
use elba.Build.Job.Layers.Ready.{IsReady, new_jobs-IsReady}

abbrev sample_children : ℕ → List ℕ
sample_children zero = 1 ∷ 2 ∷ []
sample_children (suc zero) = 2 ∷ []
sample_children (suc (suc n)) = []

abbrev sample_parents : ℕ → List ℕ
sample_parents zero = []
sample_parents (suc zero) = 0 ∷ []
sample_parents (suc (suc zero)) = 0 ∷ 1 ∷ []
sample_parents (suc (suc (suc n))) = []

abbrev sample : Shape
sample = record { size = 3; children = sample_children; parents = sample_parents }

sample-IsGraph : IsGraph sample
sample-IsGraph = (both, range)
  where
    both : (p c : ℕ) → contains c (sample_children p) ≡ contains p (sample_parents c)
    both zero zero = ground arith
    both zero (suc zero) = ground arith
    both zero (suc (suc zero)) = ground arith
    both zero (suc (suc (suc n))) = ground arith
    both (suc zero) zero = ground arith
    both (suc zero) (suc zero) = ground arith
    both (suc zero) (suc (suc zero)) = ground arith
    both (suc zero) (suc (suc (suc n))) = ground arith
    both (suc (suc p)) zero = ground arith
    both (suc (suc p)) (suc zero) = ground arith
    both (suc (suc p)) (suc (suc zero)) = ground arith
    both (suc (suc p)) (suc (suc (suc n))) = ground arith

    range : (p c : ℕ) → contains c (sample_children p) ≡ true → c < 3
    range zero c m = ground (arith, m)
    range (suc zero) c m = ground (arith, m)
    range (suc (suc p)) c m = cc

abbrev sample_rank : ℕ → ℕ
sample_rank zero = 2
sample_rank (suc zero) = 1
sample_rank (suc (suc n)) = 0

sample-no_parent : (p : ℕ) → contains 0 (sample_children p) ≡ false
sample-no_parent zero = refl
sample-no_parent (suc zero) = refl
sample-no_parent (suc (suc p)) = refl

-- Sources, layouts and paths are numbers; the hash of a node is its number, and so is its binary.
abbrev sample_builder : Builder ℕ ℕ ℕ ℕ ℕ
sample_builder = record {
  build_hash = λ node ts cg. node;
  is_built = λ ol hash. false;
  checkout_build = λ hash. ok none;
  checkout_tmp = λ hash. ok hash;
  compile_lib = λ src cg deps ol. ok tt;
  store_build = λ ol hash. ok hash;
  acquire_lib = λ ol. ok ol;
  compile_bin = λ src t deps ol. ok (some src);
  compile_doc = λ src deps ol. ok tt;
  summary = λ src. src ∷ [];
}

abbrev sample_config : Config ℕ ℕ
sample_config = record {
  source = λ i. i;
  root = lib false ∷ bin 0 ∷ [];
  root_ol = some 7;
  codegen = true;
}

abbrev no_layer : Layer ℕ ℕ ℕ
no_layer = record { jobs = λ i. default_job; next = [] }

-- Everything that a run of the job queue computes with.
machine : Unit {0}
unfolding new_jobs layers visit_all visit default_job new_targets sort_targets insert_target
    collect_targets exec exec_loop start_jobs await_one clear_all compile_target compile_all
machine = tt

abbrev left_dirty :
    Shape → Outcome (JobQueue ℕ ℕ ℕ ℕ ℕ) (List ℕ × List (ℕ × Text)) → Option (List ℕ)
left_dirty g (done r q) = some (keep (λ i. is_dirty (q.jobs i).work) (from_to 0 g.size))
left_dirty g _ = none

abbrev run : Shape → Outcome (Layer ℕ ℕ ℕ) (Unit {0}) → Option (List ℕ)
unfolding machine
run g (done r s) = left_dirty g (exec g sample_builder (some 7) (λ k. 0) 9 (new_queue s.jobs))
run g _ = none

built : run sample (new_jobs sample sample_builder sample_config (λ k xs. xs) 9 no_layer) ≡ some []
unfolding machine
built = refl

-- Two packages that depend on each other are not built, and the build succeeds all the same.
abbrev cycle : Shape
cycle = record {
  size = 3;
  children = λ p. if eqb p 0 then 1 ∷ [] else if eqb p 1 then 2 ∷ [] else 1 ∷ [];
  parents = λ c. if eqb c 2 then 1 ∷ [] else if eqb c 1 then 0 ∷ 2 ∷ [] else [];
}

cycle_not_built :
    run cycle (new_jobs cycle sample_builder sample_config (λ k xs. xs) 9 no_layer)
    ≡ some (0 ∷ 1 ∷ 2 ∷ [])
unfolding machine
cycle_not_built = refl

-- All of the sample is to build.
abbrev sample_jobs : Jobs ℕ ℕ ℕ
sample_jobs i = record { work = dirty i i; targets = lib false ∷ [] }

abbrev sample_queue : JobQueue ℕ ℕ ℕ ℕ ℕ
sample_queue = new_queue sample_jobs

sample_queue-IsQueue : IsQueue sample sample_queue
sample_queue-IsQueue = record {
  same_jobs = refl;
  distinct = tt;
  running = tt;
  needed = λ j c d m. refl;
  libs = λ j c m. refl;
}

exec_loop-IsOver_example :
    Ends (λ _ s. IsOver sample s) (exec_loop sample sample_builder none (λ k. k) 4 sample_queue)
exec_loop-IsOver_example =
    exec_loop-IsOver sample sample-IsGraph sample_builder none (λ k. k) 4 sample_queue
      sample_queue-IsQueue (omega arith)

new_jobs-IsReady_example :
    Ends
      (λ _ s. IsReady sample s)
      (new_jobs sample sample_builder sample_config (λ k xs. xs) 8 no_layer)
new_jobs-IsReady_example =
    new_jobs-IsReady sample sample-IsGraph sample-no_parent sample_builder sample_config
      (λ k xs. xs) 8 no_layer (λ k xs j. refl) (omega arith) (omega arith)

start_jobs-Started_example :
    EndsOr
      (NoLayout sample sample_builder none (2 ∷ []) sample_queue)
      (λ _ s. AllStarted sample (2 ∷ []) sample_queue s)
      (start_jobs sample sample_builder none (2 ∷ []) sample_queue)
start_jobs-Started_example =
    start_jobs-Started sample sample_builder none (2 ∷ []) sample_queue sample_queue-IsQueue bottom
  where
    bottom :
        (i : ℕ) → contains i (2 ∷ []) ≡ true → (is_bottom sample sample_jobs i ≡ true) × (i < 3)
    bottom zero m = cc
    bottom (suc zero) m = cc
    bottom (suc (suc zero)) m = (refl, omega arith)
    bottom (suc (suc (suc n))) m = absurd (ground (arith, m))

-- The queue when package 2 is being built.
abbrev sample_task : Task ℕ ℕ ℕ ℕ
sample_task = record {
  job_index = 2;
  source = 2;
  hash = 2;
  targets = lib false ∷ [];
  deps = [];
  layout = 2;
  is_root = false;
}

abbrev running_queue : JobQueue ℕ ℕ ℕ ℕ ℕ
running_queue = record {
  jobs = sample_jobs;
  ongoing = 2 ∷ [];
  futures = sample_task ∷ [];
  bins = [];
}

running_queue-IsQueue : IsQueue sample running_queue
running_queue-IsQueue = record {
  same_jobs = refl;
  distinct = (refl, tt);
  running =
      (record { bottom = refl; in_range = omega arith; same_targets = refl; all_deps = refl }, tt);
  needed = λ j c d m. refl;
  libs = λ j c m. refl;
}

await_one-Advanced_example :
    Ends
      (λ _ s. Advanced sample running_queue s)
      (await_one sample sample_builder none 5 running_queue)
await_one-Advanced_example =
    await_one-Advanced sample sample-IsGraph sample_builder none 5 running_queue
      running_queue-IsQueue refl

as_bytes-inj_example : test 3 ≡ test 3
as_bytes-inj_example = as_bytes-inj (test 3) (test 3) (omega arith) (omega arith) refl

new_targets-LibFirst_example :
    LibFirst (new_targets (bin 1 ∷ doc ∷ test 0 ∷ []))
    × (has_lib (new_targets (bin 1 ∷ doc ∷ test 0 ∷ []))
        ≡ (any_of is_lib (bin 1 ∷ doc ∷ test 0 ∷ []) || any_of is_doc (bin 1 ∷ doc ∷ test 0 ∷ [])))
new_targets-LibFirst_example = new_targets-LibFirst (bin 1 ∷ doc ∷ test 0 ∷ [])
