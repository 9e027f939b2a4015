-- ===== src/Resolve/Sound/Terms.antt =====
-- Maps of terms: what `keep` and `collect` do to distinct packages.
use mathlib.Core.List.{append-nil, append_assoc}
use elba.Prelude.{
  Bool, true, false, none, some, List, [], ◌∷◌, ◌++◌, ◌≡◌, refl, inl, inr, Eq, ◌==◌, beq_sym, arith,
  keep, All, Bool-cases, some_inj, sym, ◌∙◌, ap, subst,
}
use elba.Prelude.IndexMap.{IndexMap, IsMap, get, insert, get_cong}
use elba.Resolve.Conflict.{collect}
use elba.Resolve.Preserve.{HasTerm}

module _ {P C : Type 0} ⦃e : Eq P⦄ where
  pub insert_fresh :
      (k : P) (c : C) (m : IndexMap P C) → get k m ≡ none → insert k c m ≡ m ++ (k, c) ∷ []
  unfolding get insert
  insert_fresh k c [] h = refl
  insert_fresh k c ((j, d) ∷ m) h = elim (Bool-cases (j == k)) [
    | inl same ↦ cc (rw same at h)
    | inr other ↦ rw other (ap (λ l. (j, d) ∷ l) (insert_fresh k c m (rw other at h)))
  ]

  -- Distinct packages of a joined list are distinct in its front, and its back is new to it.
  pub get-append_none :
      (k : P) (m n : IndexMap P C) → get k (m ++ n) ≡ none → (get k m ≡ none) × (get k n ≡ none)
  unfolding get
  get-append_none k [] n h = (refl, h)
  get-append_none k ((j, d) ∷ m) n h = elim (Bool-cases (j == k)) [
    | inl same ↦ cc (rw same at h)
    | inr other ↦ rw other (get-append_none k m n (rw other at h))
  ]

  middle_fresh :
      (m : IndexMap P C) (k : P) (c : C) (n : IndexMap P C)
      → IsMap (m ++ (k, c) ∷ n)
      → get k m ≡ none
  unfolding get
  middle_fresh [] k c n h = refl
  middle_fresh ((j, d) ∷ m) k c n h = elim (Bool-cases (j == k)) [
    | inl same ↦ cc (rw (beq_sym j k same) at ((get-append_none j m ((k, c) ∷ n) h.0).1))
    | inr other ↦ rw other (middle_fresh m k c n h.1)
  ]

  pub collect_distinct :
      (m entries : IndexMap P C) → IsMap (m ++ entries) → collect m entries ≡ m ++ entries
  unfolding collect
  collect_distinct m [] h = sym (append-nil m)
  collect_distinct m ((k, c) ∷ entries) h =
      rw (insert_fresh k c m (middle_fresh m k c entries h))
        (collect_distinct (m ++ (k, c) ∷ []) entries (subst IsMap (sym regroup) h) ∙ regroup)
    where
      regroup : (m ++ (k, c) ∷ []) ++ entries ≡ m ++ (k, c) ∷ entries
      regroup = append_assoc m ((k, c) ∷ []) entries

  -- A term of a map is the map's entry for its package.
  pub HasTerm-get : (p : P) (c : C) (m : IndexMap P C) → IsMap m → HasTerm p c m → get p m ≡ some c
  unfolding get
  HasTerm-get p c [] um h = elim h [ ]
  HasTerm-get p c ((q, d) ∷ m) um h =
      ground (arith, e.beq_refl p, get_cong q p m, HasTerm-get p c m um.1)

  pub All-terms :
      (m all : IndexMap P C)
      → ((q : P) (d : C) → HasTerm q d m → HasTerm q d all)
      → All (λ (q, d). HasTerm q d all) m
  All-terms [] all sub = tt
  All-terms ((q, d) ∷ m) all sub =
      (sub q d (inl (refl, refl)), All-terms m all (λ q' d' h. sub q' d' (inr h)))

  -- The terms of equal packages in one map are one.
  pub one_term :
      (p q : P) (c d : C) (m : IndexMap P C)
      → IsMap m
      → HasTerm p c m
      → HasTerm q d m
      → (q == p) ≡ true
      → d ≡ c
  one_term p q c d m um h k same =
      some_inj (sym (HasTerm-get q d m um k) ∙ get_cong q p m same ∙ HasTerm-get p c m um h)

  pub get-keep-none :
      (k : P) (t : P × C → Bool) (m : IndexMap P C)
      → All (λ (q, d). (q == k) ≡ true → t (q, d) ≡ false) m
      → get k (keep t m) ≡ none
  unfolding get
  get-keep-none k t [] h = refl
  get-keep-none k t ((q, d) ∷ m) h = ground (arith, h.0, get-keep-none k t m h.1)

  pub get-append_both :
      (k : P) (m n : IndexMap P C) → get k m ≡ none → get k n ≡ none → get k (m ++ n) ≡ none
  unfolding get
  get-append_both k [] n h h' = h'
  get-append_both k ((q, d) ∷ m) n h h' = ground (arith, get-append_both k m n)

pub All-of-keep {ℓ κ} :
    {A : Type ℓ} (Q : A → Type κ) (t : A → Bool) (xs : List A)
    → All Q (keep t xs)
    → All (λ x. t x ≡ false → Q x) xs
    → All Q xs
All-of-keep Q t [] h h' = tt
All-of-keep Q t (x ∷ xs) h h' = elim (Bool-cases (t x)) [
  | inl b ↦ let k = rw b at h in (k.0, All-of-keep Q t xs k.1 h'.1)
  | inr b ↦ (h'.0 b, All-of-keep Q t xs (rw b at h) h'.1)
]

pub All-append_right {ℓ κ} :
    {A : Type ℓ} (Q : A → Type κ) (xs ys : List A) → All Q (xs ++ ys) → All Q ys
All-append_right Q [] ys h = h
All-append_right Q (x ∷ xs) ys h = All-append_right Q xs ys h.1
