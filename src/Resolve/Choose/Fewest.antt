-- ===== src/Resolve/Choose/Fewest.antt =====
-- The package that is decided next.
use elba.Prelude.{
  ℕ, ◌≤◌, Bool, true, false, not, none, some, List, [], ◌∷◌, ◌≡◌, ◌≢◌, inl, inr, ◌⊎◌, Eq, arith,
  Bool-cases, Option-cases, keep, All, map, All-map_of, ap, subst, ◌∙◌, ltb,
}
use elba.Prelude.IndexMap.{IndexMap, contains_key}
use elba.Prelude.IndexSet.{pop}
use elba.Retriever.{Retriever}
use elba.Resolve.Choose.{insert_sorted, sort_reversed, unsatisfied, next_package}
use elba.Resolve.State.{Resolver}

abbrev pub Member : {A : Type 0} → A → List A → Type 0
Member a [] = ⊥
Member a (x ∷ xs) = (x ≡ a) ⊎ Member a xs

module _ {K : Type 0} (count : K → ℕ) where
  -- Counts fall along the list.
  abbrev IsFalling : List K → Type 0
  IsFalling [] = Unit
  IsFalling (x ∷ xs) = All (λ y. count y ≤ count x) xs × IsFalling xs

  All-insert_sorted :
      (Q : K → Type 0) (x : K) (ys : List K) → Q x → All Q ys → All Q (insert_sorted count x ys)
  unfolding insert_sorted
  All-insert_sorted Q x [] q h = (q, tt)
  All-insert_sorted Q x (y ∷ ys) q h = elim (Bool-cases (ltb (count x) (count y))) [
    | inl b ↦ rw b (h.0, All-insert_sorted Q x ys q h.1)
    | inr b ↦ rw b (q, h)
  ]

  insert_sorted-IsFalling :
      (x : K) (ys : List K) → IsFalling ys → IsFalling (insert_sorted count x ys)
  unfolding insert_sorted
  insert_sorted-IsFalling x [] h = (tt, tt)
  insert_sorted-IsFalling x (y ∷ ys) h = elim (Bool-cases (ltb (count x) (count y))) [
    | inl b ↦ rw b (
      All-insert_sorted (λ z. count z ≤ count y) x ys (ground arith) h.0,
      insert_sorted-IsFalling x ys h.1,
    )
    | inr b ↦
        let le : count y ≤ count x = ground arith in
        rw b ((le, All-map_of _ _ (λ z q. omega arith) ys h.0), h)
  ]

  sort_reversed-IsFalling : (xs : List K) → IsFalling (sort_reversed count xs)
  unfolding sort_reversed
  sort_reversed-IsFalling [] = tt
  sort_reversed-IsFalling (x ∷ xs) =
      insert_sorted-IsFalling x (sort_reversed count xs) (sort_reversed-IsFalling xs)

  mem-insert_sorted :
      (a x : K) (ys : List K) → Member a (insert_sorted count x ys) → Member a (x ∷ ys)
  unfolding insert_sorted
  mem-insert_sorted a x [] h = h
  mem-insert_sorted a x (y ∷ ys) h = ground (arith, mem-insert_sorted a x ys)

  All-of-insert :
      (Q : K → Type 0) (x : K) (ys : List K) → All Q (insert_sorted count x ys) → All Q (x ∷ ys)
  unfolding insert_sorted
  All-of-insert Q x [] h = h
  All-of-insert Q x (y ∷ ys) h = elim (Bool-cases (ltb (count x) (count y))) [
    | inl b ↦ let k = rw b at h in let r = All-of-insert Q x ys k.1 in (r.0, (k.0, r.1))
    | inr b ↦ rw b at h
  ]

  pop_some : (x : K) (xs : List K) → pop (x ∷ xs) ≢ none
  pop_some x xs = ground arith

  All-member : (Q : K → Type 0) (l : K) (xs : List K) → All Q xs → Member l xs → Q l
  All-member Q l [] h m = elim m [ ]
  All-member Q l (x ∷ xs) h (inl e) = subst Q e h.0
  All-member Q l (x ∷ xs) h (inr m) = All-member Q l xs h.1 m

  -- The element that is taken is in the list, and no element has a smaller count.
  abbrev pub IsFewest : List K → K → Type 0
  IsFewest xs l = Member l xs × All (λ a. count l ≤ count a) xs

  pop_last : (xs rest : List K) (l : K) → IsFalling xs → pop xs ≡ some (rest, l) → IsFewest xs l
  pop_last [] rest l f h = cc
  pop_last (x ∷ []) rest l f h =
      let same : x ≡ l = ground arith in (inl same, rw same (omega arith, tt))
  pop_last (x ∷ y ∷ ys) rest l f h = elim (Option-cases (pop (y ∷ ys))) [
    | inl e ↦ absurd (pop_some y ys e)
    | inr ((r, k), e) ↦
        let same : k ≡ l = ground arith in
        let (m, least) = pop_last (y ∷ ys) r l f.1 (e ∙ ap (λ z. some (r, z)) same) in
        (inr m, (All-member (λ z. count z ≤ count x) l (y ∷ ys) f.0 m, least))
  ]

  sort_reversed-mem : (a : K) (xs : List K) → Member a (sort_reversed count xs) → Member a xs
  unfolding sort_reversed
  sort_reversed-mem a [] h = h
  sort_reversed-mem a (x ∷ xs) h =
      ground (arith, mem-insert_sorted a x (sort_reversed count xs) h, sort_reversed-mem a xs)

  -- What holds of all elements of the sorted list holds of all elements.
  All-sort_reversed : (Q : K → Type 0) (xs : List K) → All Q (sort_reversed count xs) → All Q xs
  unfolding sort_reversed
  All-sort_reversed Q [] h = tt
  All-sort_reversed Q (x ∷ xs) h =
      let back = All-of-insert Q x (sort_reversed count xs) h in
      (back.0, All-sort_reversed Q xs back.1)

  IsFewest-of_sorted :
      (xs : List K) (l : K)
      → (elim (pop (sort_reversed count xs)) [ none ↦ none | some (rest, chosen) ↦ some chosen ])
        ≡ some l
      → IsFewest xs l
  IsFewest-of_sorted xs l h = elim (Option-cases (pop (sort_reversed count xs))) [
    | inl e ↦ ground arith
    | inr ((rest, chosen), e) ↦
        let same : chosen ≡ l = ground arith in
        let (m, least) =
          pop_last (sort_reversed count xs) rest l (sort_reversed-IsFalling xs)
            (e ∙ ap (λ z. some (rest, z)) same) in
        (sort_reversed-mem l xs m, All-sort_reversed _ xs least)
  ]

module _ {P V C : Type 0} ⦃e : Eq P⦄ (decisions : IndexMap P V) where
  -- The packages of a map of derivations that have to be there and have no version yet.
  abbrev undecided : IndexMap P (Bool × C) → List (P × C)
  undecided ds =
      keep (λ d. not (contains_key d.0 decisions))
        (map (λ (k, v). (k, v.1)) (keep (λ (k, v). v.0) ds))

  undecided-mem :
      (p : P) (c : C) (ds : IndexMap P (Bool × C))
      → Member (p, c) (undecided ds)
      → Member (p, (true, c)) ds × (contains_key p decisions ≡ false)
  undecided-mem p c [] h = elim h [ ]
  undecided-mem p c ((q, (positive, d)) ∷ ds) h = ground (arith, undecided-mem p c ds)

module _ {P V C R : Type 0} ⦃e : Eq P⦄ (ret : Retriever P V C R) where
  -- The package that `choose_pkg_version` takes has a positive derivation and no version yet, and
  -- none of the packages that have a positive derivation and no version yet has fewer versions.
  pub next_package-fewest :
      (s : Resolver P V C R) (p : P) (c : C)
      → next_package ret s ≡ some (p, c)
      → Member (p, (true, c)) s.derivations
        × (contains_key p s.decisions ≡ false)
        × All
            (λ (q, d). ret.count_versions s.retriever p ≤ ret.count_versions s.retriever q)
            (unsatisfied s)
  unfolding next_package
  next_package-fewest s p c h =
      let (m, least) =
        IsFewest-of_sorted (λ d. ret.count_versions s.retriever d.0) (unsatisfied s) (p, c) h in
      let (positive, open_yet) = undecided-mem s.decisions p c s.derivations m in
      (positive, open_yet, least)
