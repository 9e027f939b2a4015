-- ===== src/Resolve/Sound/Shared.antt =====
-- What the resolvent drops: `collect` keeps one term for each package, the last.
use elba.Prelude.{
  Bool, true, false, not, Option, none, some, [], ◌∷◌, ◌++◌, ◌≡◌, refl, inl, inr, Eq, ◌==◌, arith,
  keep, Bool-cases, ◌∙◌, ap,
}
use elba.Prelude.IndexMap.{IndexMap, IsMap, get, insert, get-insert, get_cong}
use elba.Semver.{Semver}
use elba.Resolve.Conflict.{collect, new_terms, same_term}

module _ {P C : Type 0} ⦃e : Eq P⦄ where
  collect-append : (m xs ys : IndexMap P C) → collect m (xs ++ ys) ≡ collect (collect m xs) ys
  unfolding collect
  collect-append m [] ys = refl
  collect-append m ((k, c) ∷ xs) ys = collect-append (insert k c m) xs ys

  get-collect :
      (k : P) (m ys : IndexMap P C)
      → IsMap ys
      → get k (collect m ys) ≡ (elim (get k ys) [ none ↦ get k m | some d ↦ some d ])
  unfolding collect get
  get-collect k m [] um = refl
  get-collect k m ((j, c) ∷ ys) um =
      ground
        (arith, get-collect k (insert j c m) ys um.1, get-insert k j c m, get_cong j k ys, um.0)

  keep_keys-get :
      (t : P → Bool) (k : P) (m : IndexMap P C)
      → ((p q : P) → (p == q) ≡ true → t p ≡ t q)
      → t k ≡ true
      → get k (keep (λ (q, d). t q) m) ≡ get k m
  unfolding get
  keep_keys-get t k [] resp h = refl
  keep_keys-get t k ((j, c) ∷ m) resp h = ground (arith, resp j k, h, keep_keys-get t k m resp h)

  keep_keys-IsMap :
      (t : P → Bool) (m : IndexMap P C)
      → ((p q : P) → (p == q) ≡ true → t p ≡ t q)
      → IsMap m
      → IsMap (keep (λ (q, d). t q) m)
  keep_keys-IsMap t [] resp um = tt
  keep_keys-IsMap t ((j, c) ∷ m) resp um = elim (Bool-cases (t j)) [
    | inl b ↦ rw b (keep_keys-get t j m resp b ∙ um.0, keep_keys-IsMap t m resp um.1)
    | inr b ↦ rw b (keep_keys-IsMap t m resp um.1)
  ]

module _ {P V C : Type 0} ⦃e : Eq P⦄ (sv : Semver V C) where
  -- Where the incompatibility and the cause both have a term for a package other than the
  -- satisfier's, the resolvent says of it what the cause says: the incompatibility's own term, which
  -- holds nowhere in this statement, is lost, and no intersection of the two is taken.
  pub new_terms-overwrites :
      (pkg satisfier_pkg q : P) (c d : C) (difference : Option C) (i cause : IndexMap P C)
      → (pkg == q) ≡ false
      → (q == satisfier_pkg) ≡ false
      → IsMap cause
      → get q cause ≡ some d
      → get q (
          new_terms sv
            (pkg, c)
            satisfier_pkg
            (elim difference [ none ↦ none | some diff ↦ some (pkg, diff) ])
            i
            cause)
        ≡ some d
  unfolding new_terms
  new_terms-overwrites pkg spkg q c d difference i cause other unpivoted um h =
      by_difference difference
    where
      kept : IndexMap P C
      kept = keep (λ (p, d). not (p == spkg)) cause

      respected : (p p' : P) → (p == p') ≡ true → not (p == spkg) ≡ not (p' == spkg)
      respected p p' same = ap not (e.beq_cong p p' spkg same)

      terms : IndexMap P C
      terms = collect [] (keep (λ t. not (same_term sv t (pkg, c))) i ++ kept)

      found : get q terms ≡ some d
      found = ground (
        arith,
        ap (get q) (collect-append [] (keep (λ t. not (same_term sv t (pkg, c))) i) kept),
        get-collect q (collect [] (keep (λ t. not (same_term sv t (pkg, c))) i)) kept
            (keep_keys-IsMap (λ p. not (p == spkg)) cause respected um),
        keep_keys-get (λ p. not (p == spkg)) q cause respected (ap not unpivoted),
        h,
      )

      by_difference :
          (diff : Option C)
          → get q (
              new_terms sv
                (pkg, c)
                spkg
                (elim diff [ none ↦ none | some diff ↦ some (pkg, diff) ])
                i
                cause)
            ≡ some d
      by_difference none = found
      by_difference (some diff) =
          ground (arith, get-insert q pkg (sv.complement diff) terms, found, other)
