-- ===== src/Retrieve/Incompats/Widening.antt =====
-- How far the versions of an incompatibility are widened.
use elba.Prelude.{
  Bool, true, false, ◌&&◌, ◌||◌, Option, none, some, List, [], ◌∷◌, ◌++◌, ◌≡◌, refl, ap, ◌∙◌, inl,
  inr, Eq, arith, any_of, All, keep, Bool-cases, if◌then◌else◌,
}
use elba.Semver.{Semver}
use elba.Remote.Index.{Dep, Entries, ResolvedEntry, last}
use elba.Remote.IndexRes.{IndexRes}
use elba.Retrieve.Incompats.{same_dep, covers, look, widen}

-- The version of the last entry, or `bound` if there is none.
abbrev pub furthest : {Url V C : Type 0} → V → Entries Url V C → V
furthest bound [] = bound
furthest bound ((k, en) ∷ m) = furthest k m

module _ {Url V C : Type 0} ⦃e : Eq Url⦄ (sv : Semver V C) (dep : Dep (IndexRes Url) C) where
  -- Some dependency is on the same package, and asks for no more than the given one allows.
  abbrev pub covered : List (Dep (IndexRes Url) C) → Bool
  covered deps = any_of (λ d. same_dep sv dep d && covers sv dep d) deps

  abbrev covered_or : Bool → Option (Dep (IndexRes Url) C) → Bool
  covered_or seen none = seen
  covered_or seen (some d) = covers sv dep d

  -- Of the dependencies on the same package, the last asks for no more than the given one allows.
  abbrev pub last_covered : List (Dep (IndexRes Url) C) → Bool
  last_covered deps = covered_or false (last (keep (same_dep sv dep) deps))

  -- What comes before the last does not count.
  covered_or-some :
      (a b : Bool) (d : Dep (IndexRes Url) C) (ds : List (Dep (IndexRes Url) C))
      → covered_or a (last (d ∷ ds)) ≡ covered_or b (last (d ∷ ds))
  covered_or-some a b d [] = refl
  covered_or-some a b d (x ∷ xs) = covered_or-some a b x xs

  covered_or-last :
      (seen : Bool) (d : Dep (IndexRes Url) C) (ds : List (Dep (IndexRes Url) C))
      → covered_or (covers sv dep d) (last ds) ≡ covered_or seen (last (d ∷ ds))
  covered_or-last seen d [] = refl
  covered_or-last seen d (x ∷ xs) = covered_or-some (covers sv dep d) seen x xs

  look_lem :
      (deps : List (Dep (IndexRes Url) C)) (seen moves : Bool)
      → look sv dep deps (seen, moves)
        ≡ (covered_or seen (last (keep (same_dep sv dep) deps)), moves || covered deps)
  unfolding look
  look_lem [] seen moves = ground arith
  look_lem (d ∷ ds) seen moves = elim (Bool-cases (same_dep sv dep d)) [
    | inr f ↦ rw f (look_lem ds seen moves)
    | inl t ↦ elim (Bool-cases (covers sv dep d)) [
      | inl c ↦
          let same = covered_or-last seen d (keep (same_dep sv dep) ds) in
          rw (t, c) (look_lem ds true true ∙ rw (rw c at same) (ground arith))
      | inr c ↦
          let same = covered_or-last seen d (keep (same_dep sv dep) ds) in
          rw (t, c) (look_lem ds false moves ∙ rw (rw c at same) refl)
    ]
  ]

  pub covered_by_last :
      (deps : List (Dep (IndexRes Url) C)) (seen : Bool)
      → covered_or seen (last (keep (same_dep sv dep) deps)) ≡ true
      → (seen || covered deps) ≡ true
  covered_by_last [] seen h = ground (arith, h)
  covered_by_last (d ∷ ds) seen h = elim (Bool-cases (same_dep sv dep d)) [
    | inr f ↦ rw f (covered_by_last ds seen (rw f at h))
    | inl t ↦
        let kept = keep (same_dep sv dep) ds in
        let same = covered_or-last seen d kept in
        let rest = covered_by_last ds (covers sv dep d) (same ∙ rw t at h) in
        ground (arith, t, rest)
  ]

  -- The entry at which the run ends, if it moves the bound all the same.
  abbrev edge : Entries Url V C → Entries Url V C
  edge [] = []
  edge ((k, en) ∷ m) = if covered en.dependencies then (k, en) ∷ [] else []

  -- The first entry is not one that the run goes on with.
  abbrev Stops : Entries Url V C → Type 0
  Stops [] = Unit
  Stops ((k, en) ∷ m) = last_covered en.dependencies ≡ false

  abbrev at_end : Entries Url V C → Bool
  at_end [] = true
  at_end (x ∷ m) = false

  -- The entries split into the longest run of those whose last dependency on the package is covered,
  -- and the rest. The bound is the version of the last entry of the run, or of the next entry if one of
  -- its dependencies is covered.
  pub record Reaches (bound : V) (m : Entries Url V C) (found : V × Bool) : Type 0 where
    pub run : Entries Url V C
    pub rest : Entries Url V C
    pub split : m ≡ run ++ rest
    pub unbroken : All (λ (k, en). last_covered en.dependencies ≡ true) run
    pub stops : Stops rest
    pub whole : found.1 ≡ at_end rest
    pub bound_at : found.0 ≡ furthest bound (run ++ edge rest)

  pub widen-cons :
      (bound k : V) (en : ResolvedEntry Url V C) (m : Entries Url V C)
      → widen sv dep bound ((k, en) ∷ m) ≡ (
          let bound' = if covered en.dependencies then k else bound in
          if last_covered en.dependencies then widen sv dep bound' m else (bound', false))
  unfolding widen
  widen-cons bound k en m = rw (look_lem en.dependencies false false) refl

  edge_bound :
      (bound k : V) (en : ResolvedEntry Url V C)
      → (if covered en.dependencies then k else bound) ≡ furthest bound (edge ((k, en) ∷ []))
  edge_bound bound k en = elim (Bool-cases (covered en.dependencies)) [
    | inl t ↦ rw t refl
    | inr f ↦ rw f refl
  ]

  -- From a version outwards, the bound goes over the longest run of entries whose last dependency on the
  -- package asks for no more than the given one allows, and stops there: it is the version of the
  -- run's last entry, or of the entry right after the run if an earlier dependency of that one is such, and
  -- the version itself where there is neither; the end is reached exactly if all entries belong to the run.
  pub widen-Reaches : (bound : V) (m : Entries Url V C) → Reaches bound m (widen sv dep bound m)
  unfolding widen
  widen-Reaches bound [] = record {
    run = [];
    rest = [];
    split = refl;
    unbroken = tt;
    stops = tt;
    whole = refl;
    bound_at = refl;
  }
  widen-Reaches bound ((k, en) ∷ m) = elim (Bool-cases (last_covered en.dependencies)) [
    | inl on ↦
        let h = widen-Reaches k m in
        let some_covered : covered en.dependencies ≡ true =
          covered_by_last en.dependencies false on in
        let step = widen-cons bound k en m ∙ rw (on, some_covered) refl in
        record {
          run = (k, en) ∷ h.run;
          rest = h.rest;
          split = ap (λ x. (k, en) ∷ x) h.split;
          unbroken = (on, h.unbroken);
          stops = h.stops;
          whole = ap (λ x. x.1) step ∙ h.whole;
          bound_at = ap (λ x. x.0) step ∙ h.bound_at;
        }
    | inr stop ↦
        let step = widen-cons bound k en m ∙ rw stop refl in
        record {
          run = [];
          rest = (k, en) ∷ m;
          split = refl;
          unbroken = tt;
          stops = stop;
          whole = ap (λ x. x.1) step;
          bound_at = ap (λ x. x.0) step ∙ edge_bound bound k en;
        }
  ]
