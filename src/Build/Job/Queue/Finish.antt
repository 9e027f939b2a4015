-- ===== src/Build/Job/Queue/Finish.antt =====
-- `exec_async`, the end of a job: the state of the queue before and after.
use elba.Prelude.{
  ℕ, true, false, not, Option, some, List, [], ◌∷◌, ◌≡◌, refl, sym, ap, subst, ◌∙◌, ◌<◌, inl, inr,
  arith, All, All-map_of, map, keep, all_of, Bool-cases, clash, eqb,
}
use elba.Prelude.Members.{
  contains, contains-keep, count, count-lt, from_to, contains-from_to, all_of-contains, all_of_each,
}
use elba.Build.Target.{has_lib}
use elba.Build.Job.{Task, Built, is_dirty, is_fresh, is_none}
use elba.Build.Job.Queue.{Shape, Jobs, JobQueue, is_bottom, settle, finish}
use elba.Build.Job.Queue.Settle.{
  IsGraph, settle-targets, settle-dirty, settle-keeps_dirty, settle-keeps_needed, settle-fresh,
  fresh-not_dirty, settled-not_dirty,
}
use elba.Build.Job.Queue.Running.{IsRunning, IsQueue, NothingMissing}
use elba.Build.Job.Queue.Await.{IsTaken, IsDistinct-keep}

map-same :
    {A : Type 0} (f k : ℕ → A) (xs : List ℕ)
    → ((x : ℕ) → contains x xs ≡ true → f x ≡ k x)
    → map f xs ≡ map k xs
map-same f k [] h = refl
map-same f k (x ∷ xs) h =
    let first : f x ≡ k x = h x (ground arith) in
    ap (λ y. y ∷ map f xs) first
    ∙ ap (λ ys. k x ∷ ys) (map-same f k xs (λ y m. h y (ground (arith, m))))

-- Those whose number is not `a`.
others :
    {A : Type 0} (P : A → Type 0) (f : A → ℕ) (a : ℕ) (xs : List A)
    → All P xs
    → contains a (map f xs) ≡ false
    → All (λ x. P x × (eqb a (f x) ≡ false)) xs
others P f a [] h n = tt
others P f a (x ∷ xs) h n = elim (Bool-cases (eqb (f x) a)) [
  | inl b ↦ clash (rw b refl) n
  | inr b ↦ ((h.0, ground (arith, b)), others P f a xs h.1 (rw b at n))
]

module _ {Source Hash Binary : Type 0} (g : Shape) (graph : IsGraph g) (i : ℕ) (o : Option Binary)
    (jobs : Jobs Source Hash Binary) (bottom : is_bottom g jobs i ≡ true) where
  settle-child :
      (j c : ℕ)
      → is_bottom g jobs j ≡ true
      → eqb i j ≡ false
      → contains c (g.children j) ≡ true
      → (settle g i o jobs c).work ≡ (jobs c).work
  settle-child j c b n m =
      let f : is_fresh (jobs c).work ≡ true =
        all_of-contains (λ c. is_fresh (jobs c).work) (g.children j) c (ground (arith, b)) m in
      let other : eqb i c ≡ false = elim (Bool-cases (eqb i c)) [
        | inl e ↦
            let same : i ≡ c = ground (arith, e) in
            clash (ground (arith, subst (λ z. is_bottom g jobs z ≡ true) same bottom))
              (fresh-not_dirty (jobs c).work f)
        | inr e ↦ e
      ] in
      settle-keeps_needed g i o jobs graph bottom j c (ground (arith, b)) n m other

  settle-bottom :
      (j : ℕ)
      → is_bottom g jobs j ≡ true
      → eqb i j ≡ false
      → is_bottom g (settle g i o jobs) j ≡ true
  settle-bottom j b n =
      let d : is_dirty (jobs j).work ≡ true = ground (arith, b) in
      let d' : is_dirty (settle g i o jobs j).work ≡ true =
        ap is_dirty (settle-keeps_dirty g i o jobs graph bottom j d n) ∙ d in
      let all : all_of (λ c. is_fresh (settle g i o jobs c).work) (g.children j) ≡ true =
        all_of_each (λ c. is_fresh (settle g i o jobs c).work) (g.children j)
          (λ c m.
            ap is_fresh (settle-child j c b n m)
            ∙ all_of-contains (λ c. is_fresh (jobs c).work) (g.children j) c (ground (arith, b))
                m) in
      rw (d', all) refl

  settle-IsRunning :
      {Layout : Type 0} (t : Task Source Hash Binary Layout)
      → IsRunning g jobs t
      → eqb i t.job_index ≡ false
      → IsRunning g (settle g i o jobs) t
  settle-IsRunning t r n = record {
    bottom = settle-bottom t.job_index r.bottom n;
    in_range = r.in_range;
    same_targets = r.same_targets ∙ sym (settle-targets g i o jobs t.job_index);
    all_deps =
        r.all_deps
        ∙ sym (
            map-same (λ c. (settle g i o jobs c).work) (λ c. (jobs c).work) (g.children t.job_index)
              (λ c m. settle-child t.job_index c r.bottom n m));
  }

  settle-NothingMissing :
      NothingMissing g jobs
      → ((j : ℕ) → contains i (g.children j) ≡ true → (x : Binary) × (o ≡ some x))
      → NothingMissing g (settle g i o jobs)
  settle-NothingMissing h has j c d m =
      let (before, n) = settle-dirty g i o jobs j d in
      elim (Bool-cases (eqb i c)) [
        | inl b ↦
            let same : i ≡ c = ground (arith, b) in
            let (x, e) = has j (subst (λ z. contains z (g.children j) ≡ true) (sym same) m) in
            subst (λ z. is_none (settle g i o jobs z).work ≡ false) same
              (ap is_none (settle-fresh g i o jobs graph bottom x e))
        | inr b ↦
            ap is_none (settle-keeps_needed g i o jobs graph bottom j c before n m b)
            ∙ h j c before m
      ]

  settle-count :
      i < g.size
      → count (λ j. is_dirty (settle g i o jobs j).work) (from_to 0 g.size)
        < count (λ j. is_dirty (jobs j).work) (from_to 0 g.size)
  settle-count l =
      count-lt (λ j. is_dirty (jobs j).work) (λ j. is_dirty (settle g i o jobs j).work)
        (from_to 0 g.size) i (λ j d. (settle-dirty g i o jobs j d).0)
        (contains-from_to i 0 g.size (omega arith) (omega (arith, l))) (ground (arith, bottom))
        (settled-not_dirty g i o jobs)

-- The number of jobs that are to do.
abbrev pub dirty_count :
    {Source Hash Binary Layout FilePath : Type 0}
    → Shape
    → JobQueue Source Hash Binary Layout FilePath
    → ℕ
dirty_count g q = count (λ j. is_dirty (q.jobs j).work) (from_to 0 g.size)

-- A job has ended: fewer are dirty.
abbrev pub Advanced :
    {Source Hash Binary Layout FilePath : Type 0}
    → Shape
    → JobQueue Source Hash Binary Layout FilePath
    → JobQueue Source Hash Binary Layout FilePath
    → Type 0
Advanced g q s = IsQueue g s × (dirty_count g s < dirty_count g q)

module _ {Source Hash Binary Layout FilePath : Type 0} (g : Shape) (graph : IsGraph g)
    (q : JobQueue Source Hash Binary Layout FilePath) (h : IsQueue g q)
    (t : Task Source Hash Binary Layout) (rest : List (Task Source Hash Binary Layout))
    (taken : IsTaken (IsRunning g q.jobs) (λ t. t.job_index) q.futures (t, rest))
    (built : Built Binary FilePath)
    (has : has_lib t.targets ≡ true → (x : Binary) × (built.res ≡ some x)) where
  pub finish-IsQueue : IsQueue g (finish g t rest built q)
  finish-IsQueue =
      let (r, all, same, m) = taken in
      let gone : contains t.job_index (map (λ t. t.job_index) rest) ≡ false =
        ap (contains t.job_index) same
        ∙ contains-keep (λ j. not (eqb j t.job_index)) (map (λ t. t.job_index) q.futures)
            t.job_index
        ∙ ground (arith, m) in
      record {
        same_jobs = ap (keep (λ j. not (eqb j t.job_index))) h.same_jobs ∙ sym same;
        distinct = IsDistinct-keep (λ j. not (eqb j t.job_index)) q.ongoing h.distinct;
        running =
            All-map_of (λ t'. IsRunning g q.jobs t' × (eqb t.job_index t'.job_index ≡ false))
              (IsRunning g (settle g t.job_index built.res q.jobs))
              (λ t' p. settle-IsRunning g graph t.job_index built.res q.jobs r.bottom t' p.0 p.1)
              rest (others (IsRunning g q.jobs) (λ t. t.job_index) t.job_index rest all gone);
        needed =
            settle-NothingMissing g graph t.job_index built.res q.jobs r.bottom h.needed
              (λ j m. has (ap has_lib r.same_targets ∙ h.libs j t.job_index m));
        libs = λ j c m. ap has_lib (settle-targets g t.job_index built.res q.jobs c) ∙ h.libs j c m;
      }

  pub finish-dirty_count : dirty_count g (finish g t rest built q) < dirty_count g q
  finish-dirty_count =
      let (r, all, same, m) = taken in
      settle-count g graph t.job_index built.res q.jobs r.bottom r.in_range
