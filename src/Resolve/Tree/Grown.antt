-- ===== src/Resolve/Tree/Grown.antt =====
-- The graph of the chosen packages while it grows.
use elba.Prelude.{
  ℕ, suc, ◌+◌, ◌<◌, ◌≤◌, Bool, true, not, ◌&&◌, none, List, [], ◌∷◌, ◌≡◌, refl, sym, ◌∙◌, inl, inr,
  arith, length, length-append, any_of, Eq, ◌==◌, beq_sym, Bool-cases, Option-cases, clash,
  if◌then◌else◌,
}
use elba.Prelude.IndexMap.{IndexMap, get, insert, get-insert, get_cong, is_some}
use elba.Graph.{Petgraph}
use elba.Lockfile.{add_deps}
use elba.Resolve.Tree.{Growing, extend}

-- How many elements pass a test.
abbrev pub tally : {A : Type 0} → (A → Bool) → List A → ℕ
tally p [] = 0
tally p (x ∷ xs) = let rest = tally p xs in if p x then suc rest else rest

tally-le :
    {A : Type 0} (p q : A → Bool) (xs : List A)
    → ((a : A) → q a ≡ true → p a ≡ true)
    → tally q xs ≤ tally p xs
tally-le p q [] h = omega arith
tally-le p q (x ∷ xs) h = ground (arith, h x, tally-le p q xs h)

tally-lt :
    {A : Type 0} (p q : A → Bool) (xs : List A)
    → ((a : A) → q a ≡ true → p a ≡ true)
    → any_of (λ a. p a && not (q a)) xs ≡ true
    → tally q xs < tally p xs
tally-lt p q [] h m = cc
tally-lt p q (x ∷ xs) h m = ground (arith, h x, m, tally-lt p q xs h, tally-le p q xs h)

pub any_of-weaken :
    {A : Type 0} (p q : A → Bool) (xs : List A)
    → ((a : A) → p a ≡ true → q a ≡ true)
    → any_of p xs ≡ true
    → any_of q xs ≡ true
any_of-weaken p q [] h m = cc
any_of-weaken p q (x ∷ xs) h m = ground (arith, h x, m, any_of-weaken p q xs h)

module _ {T : Type 0} ⦃e : Eq T⦄ where
  abbrev pub is_unset : IndexMap T ℕ → T → Bool
  is_unset set a = not (is_some (get a set))

  unset-lt :
      (all : List T) (d : T) (n : ℕ) (set : IndexMap T ℕ)
      → get d set ≡ none
      → any_of (λ a. a == d) all ≡ true
      → tally (is_unset (insert d n set)) all < tally (is_unset set) all
  unset-lt all d n set no_d m =
      tally-lt (is_unset set) (is_unset (insert d n set)) all
        (λ a q. elim (Bool-cases (d == a)) [
          | inl same ↦ clash q (rw (get-insert a d n set, same) refl)
          | inr other ↦ sym (rw (get-insert a d n set, other) refl) ∙ q
        ])
        (any_of-weaken (λ a. a == d) (λ a. is_unset set a && not (is_unset (insert d n set) a)) all
          (λ a same.
            let none_a : get a set ≡ none = get_cong a d set same ∙ no_d in
            rw (none_a, get-insert a d n set, beq_sym a d same) refl)
          m)

module _ {T G : Type 0} ⦃e : Eq T⦄ (pg : Petgraph T G) where
  unfoldable pub extend_all : ℕ → List T → Growing T G → Growing T G
  extend_all pid [] t = t
  extend_all pid (d ∷ ds) t = extend_all pid ds (extend pg pid d t)

  pub extend_all-built :
      (pid : ℕ) (ds : List T) (t : Growing T G)
      → (extend_all pid ds t).built ≡ add_deps pg pid ds t.built
  unfolding extend_all add_deps
  extend_all-built pid [] t = refl
  extend_all-built pid (d ∷ ds) t = extend_all-built pid ds (extend pg pid d t)

  -- How many of `all` have no node yet, and how many nodes wait.
  abbrev pub work_left : List T → Growing T G → ℕ
  work_left all t = tally (λ a. not (is_some (get a t.built.set))) all + length t.queue

  extend-work_left :
      (all : List T) (pid : ℕ) (d : T) (t : Growing T G)
      → any_of (λ a. a == d) all ≡ true
      → work_left all (extend pg pid d t) ≤ work_left all t
  extend-work_left all pid d t m = elim (Option-cases (get d t.built.set)) [
    | inl no_d ↦
        let lt = unset-lt all d (pg.add_node d t.built.graph).0 t.built.set no_d m in
        let longer = length-append t.queue ((pg.add_node d t.built.graph).0 ∷ []) in
        rw no_d (omega (arith, lt, longer))
    | inr (i, at) ↦ rw at (omega arith)
  ]

  pub extend_all-work_left :
      (all : List T) (pid : ℕ) (ds : List T) (t : Growing T G)
      → ((d : T) → any_of (λ x. x == d) ds ≡ true → any_of (λ a. a == d) all ≡ true)
      → work_left all (extend_all pid ds t) ≤ work_left all t
  unfolding extend_all
  extend_all-work_left all pid [] t h = omega arith
  extend_all-work_left all pid (d ∷ ds) t h =
      let first = extend-work_left all pid d t (h d (ground (arith, e.beq_refl d))) in
      let others =
        extend_all-work_left all pid ds (extend pg pid d t) (λ x m. h x (ground (arith, m))) in
      omega (arith, first, others)

pub tally-length : {A : Type 0} (p : A → Bool) (xs : List A) → tally p xs ≤ length xs
tally-length p [] = omega arith
tally-length p (x ∷ xs) = ground (arith, tally-length p xs)
