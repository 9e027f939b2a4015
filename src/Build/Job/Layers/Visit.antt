-- ===== src/Build/Job/Layers/Visit.antt =====
-- `JobQueue::new`, what a visit of one node changes.
use elba.Prelude.{
  ℕ, true, false, ◌||◌, Option, none, some, List, [], ◌∷◌, ◌≡◌, refl, sym, ap, subst, ◌∙◌, ◌⊎◌, inl,
  inr, arith, eqb, Bool-cases, clash,
}
use elba.Prelude.Members.{contains, contains-keep}
use elba.Prelude.Outcome.{Ends, Result-cases}
use elba.Build.Job.{Builder, is_none, is_dirty}
use elba.Build.Job.Queue.{Shape}
use elba.Build.Job.Layers.{
  Layer, Config, insert_node, insert_all, targets_of, hash_of, root_built, unvisited, visited,
  visit,
}

contains-insert_node :
    (a c : ℕ) (xs : List ℕ) → contains a (insert_node c xs) ≡ (contains a xs || eqb c a)
contains-insert_node a c xs = elim (Bool-cases (contains c xs)) [
  | inl m ↦ elim (Bool-cases (eqb c a)) [
    | inl b ↦
        let same : c ≡ a = ground (arith, b) in
        let m' : contains a xs ≡ true = subst (λ z. contains z xs ≡ true) same m in rw (m, m') refl
    | inr b ↦ rw (m, b) (ground arith)
  ]
  | inr n ↦ rw n (ground arith)
]

contains-insert_all :
    (a : ℕ) (cs xs : List ℕ) → contains a (insert_all cs xs) ≡ (contains a xs || contains a cs)
contains-insert_all a [] xs = ground arith
contains-insert_all a (c ∷ cs) xs =
    contains-insert_all a cs (insert_node c xs)
    ∙ ap (λ b. b || contains a cs) (contains-insert_node a c xs)
    ∙ ground arith

module _ {Source Hash Binary Layout FilePath : Type 0} (g : Shape)
    (calls : Builder Source Hash Binary Layout FilePath) (cfg : Config Source Layout) where
  -- The node is visited; its children that are not are to be, if it is to build.
  pub record IsVisited (node : ℕ) (s s' : Layer Source Hash Binary) : Type 0 where
    pub not_none : is_none (s'.jobs node).work ≡ false
    pub others : (j : ℕ) → eqb node j ≡ false → s'.jobs j ≡ s.jobs j
    pub own_targets : (s'.jobs node).targets ≡ targets_of g calls cfg node
    pub next_kept : (c : ℕ) → contains c s.next ≡ true → contains c s'.next ≡ true
    pub next_from :
        (c : ℕ)
        → contains c s'.next ≡ true
        → (contains c s.next ≡ true)
          ⊎ (contains c (g.children node) ≡ true) × (is_none (s.jobs c).work ≡ true)
    pub next_has :
        (c : ℕ)
        → is_dirty (s'.jobs node).work ≡ true
        → contains c (g.children node) ≡ true
        → is_none (s.jobs c).work ≡ true
        → contains c s'.next ≡ true

  visited-IsVisited :
      (node : ℕ) (binary : Option Binary) (s : Layer Source Hash Binary)
      → IsVisited node s (visited g calls cfg node binary s)
  visited-IsVisited node (some b) s =
      let own : eqb node node ≡ true = ground arith in
      record {
        not_none = rw own refl;
        others = λ j n. rw n refl;
        own_targets = rw own refl;
        next_kept = λ c m. m;
        next_from = λ c m. inl m;
        next_has = λ c d m n. clash d (rw own refl);
      }
  visited-IsVisited node none s =
      let own : eqb node node ≡ true = ground arith in
      let member = λ (c : ℕ).
        contains-insert_all c (unvisited g calls cfg node s.jobs) s.next
        ∙ ap (λ b. contains c s.next || b)
            (contains-keep (λ c. is_none (s.jobs c).work) (g.children node) c) in
      record {
        not_none = rw own refl;
        others = λ j n. rw n refl;
        own_targets = rw own refl;
        next_kept = λ c m. member c ∙ ground (arith, m);
        next_from = λ c m.
            let both = sym (member c) ∙ m in
            elim (Bool-cases (contains c s.next)) [
              | inl k ↦ inl k
              | inr k ↦ inr (ground (arith, both, k), ground (arith, both, k))
            ];
        next_has = λ c d m n. member c ∙ ground (arith, m, n);
      }

  pub visit-IsVisited :
      (node : ℕ) (s : Layer Source Hash Binary)
      → root_built g calls cfg node ≡ false
      → Ends (λ _ s'. IsVisited node s s') (visit g calls cfg node s)
  unfolding visit
  visit-IsVisited node s n = elim (Result-cases (calls.checkout_build (hash_of g calls cfg node))) [
    | inl (e, r) ↦ rw (n, r) tt
    | inr (binary, r) ↦ rw (n, r) (visited-IsVisited node binary s)
  ]
