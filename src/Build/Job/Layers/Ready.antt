-- ===== src/Build/Job/Layers/Ready.antt =====
-- `JobQueue::new`: the number of rounds, and the graph at the end.
use elba.Prelude.{
  ℕ, zero, suc, ◌+◌, ◌*◌, Bool, true, false, List, [], ◌∷◌, ◌≡◌, ◌<◌, ◌≤◌, refl, sym, subst, ◌∙◌,
  inl, inr, arith, eqb, any_of, is_nil, Bool-cases, clash, if◌then◌else◌,
}
use elba.Prelude.Members.{
  contains, count, count-le, count-lt, count-from_to, from_to, contains-from_to, any_of-cases,
  some_member, nil-absent,
}
use elba.Prelude.Outcome.{Ends, Ends-and_then}
use elba.Build.Target.{new_targets, has_lib}
use elba.Build.Job.{Builder, Job, no_work, is_none, is_dirty}
use elba.Build.Job.Queue.{Shape}
use elba.Build.Job.Queue.Settle.{IsGraph}
use elba.Build.Job.Queue.Running.{NothingMissing, HasLibs}
use elba.Build.Job.Layers.{
  Layer, Config, default_job, targets_of, root_built, put_work, visit, visit_all, layers, new_jobs,
}
use elba.Build.Job.Layers.Pass.{IsCovered, HasLibTargets, IsPassed, visit_all-IsPassed}

-- Draining a set gives its members in some order.
abbrev pub IsDrain : (ℕ → List ℕ → List ℕ) → Type 0
IsDrain drain = (k : ℕ) (xs : List ℕ) (j : ℕ) → contains j (drain k xs) ≡ contains j xs

Bool-bound : (b : Bool) (n m : ℕ) → n + 2 < m → n + (if b then 1 else 2) < m
Bool-bound true n m h = omega (arith, h)
Bool-bound false n m h = h

module _ {Source Hash Binary : Type 0} (g : Shape) where
  -- How many jobs have not been visited.
  abbrev undone : Layer Source Hash Binary → ℕ
  undone s = count (λ j. is_none (s.jobs j).work) (from_to 0 g.size)

  abbrev unseen : Layer Source Hash Binary → Bool
  unseen s = any_of (λ j. is_none (s.jobs j).work) s.next

  -- A round visits a job that was not visited, or is followed by one that does.
  abbrev Enough : ℕ → Layer Source Hash Binary → Type 0
  Enough fuel s =
      (0 < fuel) × (is_nil s.next ≡ false → 2 * undone s + (if unseen s then 1 else 2) < fuel)

  abbrev IsGood : Layer Source Hash Binary → Type 0
  IsGood s =
      IsCovered g [] s × HasLibTargets g s × ((c : ℕ) → contains c s.next ≡ true → c < g.size)

  undone-le :
      (nodes : List ℕ) (s s' : Layer Source Hash Binary)
      → IsPassed g nodes s s'
      → undone s' ≤ undone s
  undone-le nodes s s' h =
      count-le (λ j. is_none (s.jobs j).work) (λ j. is_none (s'.jobs j).work) (from_to 0 g.size)
        (λ j n. elim (Bool-cases (is_none (s.jobs j).work)) [
          | inl b ↦ b
          | inr b ↦ clash n (h.stays j b)
        ])

  undone-lt :
      (nodes : List ℕ) (s s' : Layer Source Hash Binary) (a : ℕ)
      → IsPassed g nodes s s'
      → contains a nodes ≡ true
      → a < g.size
      → is_none (s.jobs a).work ≡ true
      → undone s' < undone s
  undone-lt nodes s s' a h m l n =
      count-lt (λ j. is_none (s.jobs j).work) (λ j. is_none (s'.jobs j).work) (from_to 0 g.size) a
        (λ j n. elim (Bool-cases (is_none (s.jobs j).work)) [
          | inl b ↦ b
          | inr b ↦ clash n (h.stays j b)
        ])
        (contains-from_to a 0 g.size (omega arith) (omega (arith, l))) n (h.all_visited a m)

  unseen-all :
      (s : Layer Source Hash Binary)
      → is_nil s.next ≡ false
      → ((c : ℕ) → contains c s.next ≡ true → is_none (s.jobs c).work ≡ true)
      → unseen s ≡ true
  unseen-all s n all = elim (any_of-cases (λ j. is_none (s.jobs j).work) s.next) [
    | inl (a, m, t, any) ↦ any
    | inr (off, all_off) ↦ let (c, m) = some_member s.next n in clash (all c m) (all_off c m)
  ]

  Enough-next :
      (drain : ℕ → List ℕ → List ℕ) (k fuel : ℕ) (s s' : Layer Source Hash Binary)
      → IsDrain drain
      → IsGood s
      → is_nil s.next ≡ false
      → IsPassed g (drain k s.next) (record s { next = [] }) s'
      → Enough (suc fuel) s
      → Enough fuel s'
  Enough-next drain k fuel s s' same good n h e =
      elim (any_of-cases (λ j. is_none (s.jobs j).work) s.next) [
        | inl (a, m, t, any) ↦
            let lt =
              undone-lt (drain k s.next) (record s { next = [] }) s' a h (same k s.next a ∙ m)
                (good.2 a m) t in
            let bound : 2 * undone s + 1 < suc fuel = rw any at (e.1 n) in
            (
              omega (arith, bound, lt),
              λ _. Bool-bound (unseen s') (2 * undone s') fuel (omega (arith, bound, lt)),
            )
        | inr (off, all_off) ↦
            let le = undone-le (drain k s.next) (record s { next = [] }) s' h in
            let bound : 2 * undone s + 2 < suc fuel = rw off at (e.1 n) in
            (
              omega (arith, bound),
              λ n'.
                  let all : unseen s' ≡ true = unseen-all s' n' (λ c m.
                    elim (h.revisits (λ j i. all_off j (sym (same k s.next j) ∙ i)) c m) [
                      | inl i ↦ cc
                      | inr t ↦ t
                    ]) in
                  rw all (omega (arith, bound, le)),
            )
      ]

-- What `exec` asks of the graph that it is given.
abbrev pub IsReady : {Source Hash Binary : Type 0} → Shape → Layer Source Hash Binary → Type 0
IsReady g s = NothingMissing g s.jobs × HasLibs g s.jobs

module _ {Source Hash Binary Layout FilePath : Type 0} (g : Shape) (graph : IsGraph g)
    (no_parent : (p : ℕ) → contains 0 (g.children p) ≡ false)
    (calls : Builder Source Hash Binary Layout FilePath) (cfg : Config Source Layout) where
  libs-HasLibs : (s : Layer Source Hash Binary) → HasLibTargets g s → HasLibs g s.jobs
  libs-HasLibs s libs j c m = elim (Bool-cases (eqb c 0)) [
    | inl b ↦
        let same : c ≡ 0 = ground (arith, b) in
        clash (subst (λ z. contains z (g.children j) ≡ true) same m) (no_parent j)
    | inr b ↦ libs c b
  ]

  good-IsReady : (s : Layer Source Hash Binary) → IsGood g s → is_nil s.next ≡ true → IsReady g s
  good-IsReady s good n = (
    λ j c d m. elim (Bool-cases (is_none (s.jobs c).work)) [
      | inl b ↦ clash (good.0 j c d m b) (ground (arith, nil-absent s.next c n))
      | inr b ↦ b
    ],
    libs-HasLibs s good.1,
  )

  module _ (regular : (i : ℕ) → root_built g calls cfg i ≡ false) (drain : ℕ → List ℕ → List ℕ)
      (same : IsDrain drain) where
    layers-IsReady :
        (fuel : ℕ) (s : Layer Source Hash Binary)
        → IsGood g s
        → Enough g fuel s
        → Ends (λ _ s'. IsReady g s') (layers g calls cfg drain fuel s)
    unfolding layers
    layers-IsReady zero s good e = absurd (omega (arith, e.0))
    layers-IsReady (suc fuel) s good e = elim (Bool-cases (is_nil s.next)) [
      | inl n ↦ rw n (good-IsReady s good n)
      | inr n ↦ rw n (
          Ends-and_then (λ _ s'. IsPassed g (drain fuel s.next) (record s { next = [] }) s')
            (λ _ s'. IsReady g s')
            (visit_all g calls cfg (drain fuel s.next) (record s { next = [] }))
            (λ _. layers g calls cfg drain fuel)
            (visit_all-IsPassed g graph calls cfg (drain fuel s.next) (record s { next = [] })
              regular)
            (λ _ s' h.
              layers-IsReady fuel s'
                (
                  h.covers (λ j c d m t. same fuel s.next c ∙ ground (arith, good.0 j c d m t)),
                  h.libs good.1,
                  λ c m. elim (h.in_range c m) [ inl i ↦ cc | inr l ↦ l ],
                )
                (Enough-next g drain fuel fuel s s' same good n h e)))
    ]

  abbrev first_layer : Layer Source Hash Binary
  first_layer = record { jobs = λ i. default_job; next = 0 ∷ [] }

  default-libs : HasLibTargets g first_layer
  unfolding new_targets default_job
  default-libs j n = refl

  -- The root package is there: nothing else is looked at.
  abbrev IsIdle : Layer Source Hash Binary → Type 0
  IsIdle s =
      (is_nil s.next ≡ true) × ((j : ℕ) → is_dirty (s.jobs j).work ≡ false) × HasLibTargets g s

  visit_all-IsIdle :
      (nodes : List ℕ) (s : Layer Source Hash Binary)
      → ((i : ℕ) → contains i nodes ≡ true → (i ≡ 0) × (root_built g calls cfg i ≡ true))
      → IsIdle s
      → Ends (λ _ s'. IsIdle s') (visit_all g calls cfg nodes s)
  unfolding visit_all visit
  visit_all-IsIdle [] s all h = h
  visit_all-IsIdle (node ∷ nodes) s all h =
      let (zero_node, b) = all node (ground arith) in
      rw b (
        visit_all-IsIdle nodes (put_work g calls cfg node no_work s)
          (λ i m. all i (ground (arith, m)))
          (h.0, λ j. put-clean (eqb node j) (s.jobs j) (h.1 j), λ j n. put-libs j n zero_node))
    where
      put-clean :
          (b : Bool) (x : Job Source Hash Binary)
          → is_dirty x.work ≡ false
          → is_dirty
              (if b
                then record { work = no_work; targets = targets_of g calls cfg node }
                else x).work
            ≡ false
      put-clean true x h = refl
      put-clean false x h = h

      put-libs :
          (j : ℕ)
          → eqb j 0 ≡ false
          → node ≡ 0
          → has_lib ((put_work g calls cfg node no_work s).jobs j).targets ≡ true
      put-libs j n e = let other : eqb node j ≡ false = ground (arith, n, e) in rw other (h.2 j n)

  all_regular : root_built g calls cfg 0 ≡ false → (i : ℕ) → root_built g calls cfg i ≡ false
  all_regular b i = elim (Bool-cases (eqb i 0)) [
    | inl e ↦
        let eq : i ≡ 0 = ground (arith, e) in
        subst (λ z. root_built g calls cfg z ≡ false) (sym eq) b
    | inr n ↦ rw n refl
  ]

  idle-IsReady : (s : Layer Source Hash Binary) → IsIdle s → IsReady g s
  idle-IsReady s h = (λ j c d m. clash d (h.1 j), libs-HasLibs s h.2)

  -- With fuel for two rounds for each package and two more, the layers come to an end, with an error of
  -- the cache or with a graph in which all that a job to do depends on is there or to do, and has a
  -- library; nothing may depend on the root.
  pub new_jobs-IsReady :
      (drain : ℕ → List ℕ → List ℕ) (fuel : ℕ) (start : Layer Source Hash Binary)
      → IsDrain drain
      → 0 < g.size
      → 2 * g.size + 1 < fuel
      → Ends (λ _ s. IsReady g s) (new_jobs g calls cfg drain fuel start)
  unfolding new_jobs layers default_job
  new_jobs-IsReady drain zero start same l e = absurd (omega (arith, e))
  new_jobs-IsReady drain (suc zero) start same l e = absurd (omega (arith, e))
  new_jobs-IsReady drain (suc (suc fuel)) start same l e =
      elim (Bool-cases (root_built g calls cfg 0)) [
        | inl b ↦
            Ends-and_then (λ _ s. IsIdle s) (λ _ s. IsReady g s)
              (visit_all g calls cfg (drain (suc fuel) (0 ∷ [])) (record first_layer { next = [] }))
              (λ _. layers g calls cfg drain (suc fuel))
              (visit_all-IsIdle (drain (suc fuel) (0 ∷ [])) (record first_layer { next = [] })
                (λ i m.
                  let eq : i ≡ 0 = ground (arith, sym (same (suc fuel) (0 ∷ []) i) ∙ m) in
                  (eq, subst (λ z. root_built g calls cfg z ≡ true) (sym eq) b))
                (refl, λ j. refl, default-libs))
              (λ _ s h. rw h.0 (idle-IsReady s h))
        | inr b ↦
            layers-IsReady (all_regular b) drain same (suc (suc fuel)) first_layer
              (λ j c d. cc, default-libs, λ c m. ground (arith, l, m))
              (
                omega arith,
                λ _.
                    omega
                      (arith, e, count-from_to (λ j. is_none (first_layer.jobs j).work) 0 g.size),
              )
      ]
