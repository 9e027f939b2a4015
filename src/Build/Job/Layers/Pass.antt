-- ===== src/Build/Job/Layers/Pass.antt =====
-- `JobQueue::new`, what a whole layer of visits changes.
use elba.Prelude.{
  ℕ, true, false, ◌||◌, List, [], ◌∷◌, ◌≡◌, ◌<◌, refl, sym, ap, subst, ◌∙◌, ◌⊎◌, inl, inr, arith,
  eqb, Bool-cases, clash,
}
use elba.Prelude.Members.{contains}
use elba.Prelude.Outcome.{Ends, Ends-and_then, Ends-weaken}
use elba.Build.Target.{new_targets, has_lib}
use elba.Build.Job.{Builder, is_none, is_dirty}
use elba.Build.Job.Queue.{Shape}
use elba.Build.Job.Queue.Settle.{IsGraph}
use elba.Build.Job.Layers.{Layer, Config, root_built, visit, visit_all}
use elba.Build.Job.Layers.Visit.{IsVisited, visit-IsVisited}

module _ {Source Hash Binary : Type 0} (g : Shape) where
  -- What a job to build depends on has been visited, or will be: it is in the layer or in the next one.
  abbrev pub IsCovered : List ℕ → Layer Source Hash Binary → Type 0
  IsCovered nodes s =
      (j c : ℕ)
      → is_dirty (s.jobs j).work ≡ true
      → contains c (g.children j) ≡ true
      → is_none (s.jobs c).work ≡ true
      → (contains c s.next || contains c nodes) ≡ true

  -- The packages other than the root are built as libraries.
  abbrev pub HasLibTargets : Layer Source Hash Binary → Type 0
  HasLibTargets s = (j : ℕ) → eqb j 0 ≡ false → has_lib (s.jobs j).targets ≡ true

  pub record IsPassed (nodes : List ℕ) (s s' : Layer Source Hash Binary) : Type 0 where
    pub stays : (j : ℕ) → is_none (s.jobs j).work ≡ false → is_none (s'.jobs j).work ≡ false
    pub all_visited : (j : ℕ) → contains j nodes ≡ true → is_none (s'.jobs j).work ≡ false
    -- Visiting again finds nothing but what is not visited.
    pub same :
        ((j : ℕ) → contains j nodes ≡ true → is_none (s.jobs j).work ≡ false)
        → (j : ℕ) → is_none (s'.jobs j).work ≡ is_none (s.jobs j).work
    pub revisits :
        ((j : ℕ) → contains j nodes ≡ true → is_none (s.jobs j).work ≡ false)
        → (c : ℕ) → contains c s'.next ≡ true
        → (contains c s.next ≡ true) ⊎ (is_none (s'.jobs c).work ≡ true)
    pub in_range : (c : ℕ) → contains c s'.next ≡ true → (contains c s.next ≡ true) ⊎ (c < g.size)
    pub covers : IsCovered nodes s → IsCovered [] s'
    pub libs : HasLibTargets s → HasLibTargets s'

module _ {Source Hash Binary Layout FilePath : Type 0} (g : Shape) (graph : IsGraph g)
    (calls : Builder Source Hash Binary Layout FilePath) (cfg : Config Source Layout) where
  -- A visit, and the visits of the rest of the layer.
  module _ (node : ℕ) (nodes : List ℕ) (s r s' : Layer Source Hash Binary)
      (v : IsVisited g calls cfg node s r) (h : IsPassed g nodes r s') where
    visit-stays : (j : ℕ) → is_none (s.jobs j).work ≡ false → is_none (r.jobs j).work ≡ false
    visit-stays j n = elim (Bool-cases (eqb node j)) [
      | inl b ↦
          let same : node ≡ j = ground (arith, b) in
          subst (λ z. is_none (r.jobs z).work ≡ false) same v.not_none
      | inr b ↦ ap (λ x. is_none x.work) (v.others j b) ∙ n
    ]

    visit-same :
        is_none (s.jobs node).work ≡ false
        → (j : ℕ) → is_none (r.jobs j).work ≡ is_none (s.jobs j).work
    visit-same n j = elim (Bool-cases (eqb node j)) [
      | inl b ↦
          let same : node ≡ j = ground (arith, b) in
          subst (λ z. is_none (r.jobs z).work ≡ is_none (s.jobs z).work) same (v.not_none ∙ sym n)
      | inr b ↦ ap (λ x. is_none x.work) (v.others j b)
    ]

    visit-covers : IsCovered g (node ∷ nodes) s → IsCovered g nodes r
    visit-covers cov j c d m n = elim (Bool-cases (eqb node c)) [
      | inl b ↦
          let same : node ≡ c = ground (arith, b) in
          clash n (subst (λ z. is_none (r.jobs z).work ≡ false) same v.not_none)
      | inr b ↦
          let before : is_none (s.jobs c).work ≡ true =
            sym (ap (λ x. is_none x.work) (v.others c b)) ∙ n in
          elim (Bool-cases (eqb node j)) [
            | inl k ↦
                let same : j ≡ node = ground (arith, k) in
                let found : contains c r.next ≡ true =
                  v.next_has c (subst (λ z. is_dirty (r.jobs z).work ≡ true) same d)
                    (subst (λ z. contains c (g.children z) ≡ true) same m) before in
                ground (arith, found)
            | inr k ↦
                let was = cov j c (sym (ap (λ x. is_dirty x.work) (v.others j k)) ∙ d) m before in
                elim (Bool-cases (contains c s.next)) [
                  | inl i ↦ ground (arith, v.next_kept c i)
                  | inr i ↦ ground (arith, was, i, b)
                ]
          ]
    ]

    visit-libs : HasLibTargets g s → HasLibTargets g r
    unfolding new_targets
    visit-libs libs j n = elim (Bool-cases (eqb node j)) [
      | inl b ↦
          let same : node ≡ j = ground (arith, b) in
          subst (λ z. has_lib (r.jobs z).targets ≡ true) same
            (ap has_lib v.own_targets ∙ rw (subst (λ z. eqb z 0 ≡ false) (sym same) n) refl)
      | inr b ↦ ap (λ x. has_lib x.targets) (v.others j b) ∙ libs j n
    ]

    rest :
        ((j : ℕ) → contains j (node ∷ nodes) ≡ true → is_none (s.jobs j).work ≡ false)
        → (j : ℕ) → contains j nodes ≡ true
        → is_none (r.jobs j).work ≡ false
    rest all j m = visit-stays j (all j (ground (arith, m)))

    visit-IsPassed : IsPassed g (node ∷ nodes) s s'
    visit-IsPassed = record {
      stays = λ j n. h.stays j (visit-stays j n);
      all_visited = λ j m. elim (Bool-cases (eqb node j)) [
        | inl b ↦
            let same : node ≡ j = ground (arith, b) in
            h.stays j (subst (λ z. is_none (r.jobs z).work ≡ false) same v.not_none)
        | inr b ↦ h.all_visited j (rw b at m)
      ];
      same = λ all j. h.same (rest all) j ∙ visit-same (all node (ground arith)) j;
      revisits = λ all c m. elim (h.revisits (rest all) c m) [
        | inl k ↦ elim (v.next_from c k) [
          | inl i ↦ inl i
          | inr (child, n) ↦ inr (h.same (rest all) c ∙ visit-same (all node (ground arith)) c ∙ n)
        ]
        | inr n ↦ inr n
      ];
      in_range = λ c m. elim (h.in_range c m) [
        | inl k ↦ elim (v.next_from c k) [
          | inl i ↦ inl i
          | inr (child, n) ↦ inr (graph.1 node c child)
        ]
        | inr l ↦ inr l
      ];
      covers = λ cov. h.covers (visit-covers cov);
      libs = λ libs. h.libs (visit-libs libs);
    }

  pub visit_all-IsPassed :
      (nodes : List ℕ) (s : Layer Source Hash Binary)
      → ((i : ℕ) → root_built g calls cfg i ≡ false)
      → Ends (λ _ s'. IsPassed g nodes s s') (visit_all g calls cfg nodes s)
  unfolding visit_all
  visit_all-IsPassed [] s n = record {
    stays = λ j n. n;
    all_visited = λ j. cc;
    same = λ all j. refl;
    revisits = λ all c m. inl m;
    in_range = λ c m. inl m;
    covers = λ cov. cov;
    libs = λ libs. libs;
  }
  visit_all-IsPassed (node ∷ nodes) s n =
      Ends-and_then (λ _ r. IsVisited g calls cfg node s r) (λ _ s'. IsPassed g (node ∷ nodes) s s')
        (visit g calls cfg node s) (λ _. visit_all g calls cfg nodes)
        (visit-IsVisited g calls cfg node s (n node))
        (λ _ r v.
          Ends-weaken (λ _ s'. IsPassed g nodes r s') (λ _ s'. IsPassed g (node ∷ nodes) s s')
            (visit_all g calls cfg nodes r) (visit_all-IsPassed nodes r n)
            (λ _ s'. visit-IsPassed node nodes s r s' v))
