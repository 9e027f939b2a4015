-- ===== src/Build/Job/Queue/Settle.antt =====
-- What the end of a job changes in the graph of `exec_async`, and what it leaves alone.
use elba.Prelude.{
  ℕ, true, false, ◌&&◌, Option, none, some, List, [], ◌∷◌, ◌≡◌, refl, sym, ap, subst, ◌∙◌, ◌<◌, inl,
  inr, arith, eqb, keep, Bool-cases, clash, if◌then◌else◌,
}
use elba.Prelude.Members.{contains, all_of-contains, contains-keep}
use elba.Build.Job.{Work, no_work, fresh, dirty, is_dirty, is_fresh, is_none}
use elba.Build.Job.Queue.{
  Shape, Jobs, set_work, clear_all, is_bottom, all_parents_fresh, result_work, settle,
}

-- Both directions are those of one set of edges, and an edge leads to a node of the graph.
abbrev pub IsGraph : Shape → Type 0
IsGraph g =
    ((p c : ℕ) → contains c (g.children p) ≡ contains p (g.parents c))
    × ((p c : ℕ) → contains c (g.children p) ≡ true → c < g.size)

module _ {Source Hash Binary : Type 0} where
  clear_all-work :
      (cs : List ℕ) (jobs : Jobs Source Hash Binary) (j : ℕ)
      → (clear_all cs jobs j).work ≡ (if contains j cs then no_work else (jobs j).work)
  unfolding clear_all
  clear_all-work [] jobs j = refl
  clear_all-work (c ∷ cs) jobs j = clear_all-work cs (set_work c no_work jobs) j ∙ ground arith

  clear_all-targets :
      (cs : List ℕ) (jobs : Jobs Source Hash Binary) (j : ℕ)
      → (clear_all cs jobs j).targets ≡ (jobs j).targets
  unfolding clear_all
  clear_all-targets [] jobs j = refl
  clear_all-targets (c ∷ cs) jobs j =
      clear_all-targets cs (set_work c no_work jobs) j ∙ ground arith

  pub fresh-not_dirty : (w : Work Source Hash Binary) → is_fresh w ≡ true → is_dirty w ≡ false
  fresh-not_dirty no_work h = refl
  fresh-not_dirty (fresh b) h = refl
  fresh-not_dirty (dirty s k) h = cc

  fresh-not_none : (w : Work Source Hash Binary) → is_fresh w ≡ true → is_none w ≡ false
  fresh-not_none no_work h = cc
  fresh-not_none (fresh b) h = refl
  fresh-not_none (dirty s k) h = refl

  result_work-not_dirty :
      (o : Option Binary) (w : Work Source Hash Binary) → is_dirty (result_work o w) ≡ false
  result_work-not_dirty (some b) w = refl
  result_work-not_dirty none no_work = refl
  result_work-not_dirty none (fresh b) = refl
  result_work-not_dirty none (dirty s k) = refl

module _ {Source Hash Binary : Type 0} (g : Shape) (i : ℕ) (o : Option Binary)
    (jobs : Jobs Source Hash Binary) where
  abbrev after : Jobs Source Hash Binary
  after = set_work i (result_work o (jobs i).work) jobs

  settle-work :
      (j : ℕ)
      → (settle g i o jobs j).work ≡ (
          if contains j (g.children i) && all_parents_fresh g after j
          then no_work
          else (after j).work)
  settle-work j =
      clear_all-work (keep (all_parents_fresh g after) (g.children i)) after j
      ∙ ap (λ b. if b then no_work else (after j).work)
          (contains-keep (all_parents_fresh g after) (g.children i) j)

  pub settle-targets : (j : ℕ) → (settle g i o jobs j).targets ≡ (jobs j).targets
  settle-targets j =
      clear_all-targets (keep (all_parents_fresh g after) (g.children i)) after j ∙ ground arith

  pub settled-not_dirty : is_dirty (settle g i o jobs i).work ≡ false
  settled-not_dirty =
      let own : eqb i i ≡ true = ground arith in
      elim (Bool-cases (contains i (g.children i) && all_parents_fresh g after i)) [
        | inl b ↦ rw (settle-work i, b) refl
        | inr b ↦ rw (settle-work i, b, own) (result_work-not_dirty o (jobs i).work)
      ]

  -- No job becomes dirty.
  pub settle-dirty :
      (j : ℕ)
      → is_dirty (settle g i o jobs j).work ≡ true
      → (is_dirty (jobs j).work ≡ true) × (eqb i j ≡ false)
  settle-dirty j d = elim (Bool-cases (eqb i j)) [
    | inl b ↦
        let same : i ≡ j = ground (arith, b) in
        clash d (subst (λ z. is_dirty (settle g i o jobs z).work ≡ false) same settled-not_dirty)
    | inr b ↦ (
      elim (Bool-cases (contains j (g.children i) && all_parents_fresh g after j)) [
        | inl n ↦ clash (subst (λ w. is_dirty w ≡ true) (settle-work j) d) (rw n refl)
        | inr n ↦ rw (settle-work j, n, b) at d
      ],
      b,
    )
  ]

  module _ (graph : IsGraph g) (bottom : is_bottom g jobs i ≡ true) where
    dirty-not_child : (j : ℕ) → is_dirty (jobs j).work ≡ true → contains j (g.children i) ≡ false
    dirty-not_child j d = elim (Bool-cases (contains j (g.children i))) [
      | inl m ↦
          let f : is_fresh (jobs j).work ≡ true =
            all_of-contains (λ c. is_fresh (jobs c).work) (g.children i) j (ground (arith, bottom))
              m in
          clash d (fresh-not_dirty (jobs j).work f)
      | inr n ↦ n
    ]

    pub settle-keeps_dirty :
        (j : ℕ)
        → is_dirty (jobs j).work ≡ true
        → eqb i j ≡ false
        → (settle g i o jobs j).work ≡ (jobs j).work
    settle-keeps_dirty j d n = rw (settle-work j, dirty-not_child j d, n) refl

    -- What a dirty job needs is not dropped.
    pub settle-keeps_needed :
        (j c : ℕ)
        → is_dirty (jobs j).work ≡ true
        → eqb i j ≡ false
        → contains c (g.children j) ≡ true
        → eqb i c ≡ false
        → (settle g i o jobs c).work ≡ (jobs c).work
    settle-keeps_needed j c d n m k =
        let needed : all_parents_fresh g after c ≡ false =
          elim (Bool-cases (all_parents_fresh g after c)) [
            | inl all ↦
                let f =
                  all_of-contains (λ p. is_fresh (after p).work) (g.parents c) j all
                    (sym (graph.0 j c) ∙ m) in
                clash d (fresh-not_dirty (jobs j).work (rw n at f))
            | inr b ↦ b
          ] in
        rw (settle-work c, needed, k) (ground arith)

    pub settle-fresh : (x : Binary) → o ≡ some x → (settle g i o jobs i).work ≡ fresh x
    settle-fresh x e =
        let own : eqb i i ≡ true = ground arith in
        rw (settle-work i, dirty-not_child i (ground (arith, bottom)), own, e) refl
