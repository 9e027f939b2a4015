-- ===== src/Remote/Index/Chosen.antt =====
-- What `select_by_spec` chooses.
use elba.Prelude.{
  Bool, true, Option, none, some, List, [], ◌∷◌, ◌≡◌, refl, inl, inr, Eq, ◌==◌, beq_sym, arith, All,
  keep, Bool-cases, subst, some_inj,
}
use elba.Prelude.IndexMap.{IndexMap}
use elba.Prelude.Outcome.{ok, or_error, Result-cases, package_not_found}
use elba.Package.Name.{name_eq}
use elba.Package.PackageId.{PackageId}
use elba.Package.Spec.{Spec, agrees_with, matches}
use elba.Remote.Index.{
  Index, ResolvedEntry, Entries, Indices, index_entries, last, candidates, candidate, summary_in,
  on_candidate, search_indices, select_by_spec,
}
use elba.Remote.Index.Loaded.{IsKeyed, index_entries-IsKeyed}
use elba.Remote.IndexRes.{IndexRes}
use elba.Remote.Resolution.{index_res, resolution_eq}
use elba.Resolve.Incompat.{Summary}

All-keep :
    {A : Type 0} (Q : A → Type 0) (p : A → Bool) (xs : List A)
    → All Q xs
    → All (λ x. Q x × (p x ≡ true)) (keep p xs)
All-keep Q p [] h = tt
All-keep Q p (x ∷ xs) h = elim (Bool-cases (p x)) [
  | inl t ↦ rw t ((h.0, t), All-keep Q p xs h.1)
  | inr f ↦ rw f (All-keep Q p xs h.1)
]

pub All-last :
    {A : Type 0} (Q : A → Type 0) (xs : List A) (a : A) → All Q xs → last xs ≡ some a → Q a
All-last Q [] a h e = cc
All-last Q (x ∷ []) a h e = subst Q (some_inj e) h.0
All-last Q (x ∷ y ∷ ys) a h e = All-last Q (y ∷ ys) a h.1 e

module _ {V : Type 0} ⦃v : Eq V⦄ where
  agrees_with_key :
      (o : Option V) (k w : V) → (k == w) ≡ true → agrees_with o w ≡ true → agrees_with o k ≡ true
  agrees_with_key none k w same h = refl
  agrees_with_key (some x) k w same h = ground (arith, h, same, v.beq_cong x w k, beq_sym k w same)

module _ {Url V : Type 0} ⦃e : Eq Url⦄ ⦃v : Eq V⦄ where
  summary-matches :
      (spec : Spec Url V) (ir : IndexRes Url) (ver : V)
      → agrees_with spec.resolution (index_res ir) ≡ true
      → agrees_with spec.version ver ≡ true
      → matches spec (summary_in spec ir ver) ≡ true
  unfolding matches
  summary-matches spec ir ver h k = ground (arith, h, k, name_eq.beq_refl spec.name)

  -- What the search has found, if anything, matches the spec.
  abbrev pub IsAllowed : Spec Url V → Option (Summary (PackageId Url) V) → Type 0
  IsAllowed spec none = Unit
  IsAllowed spec (some sum) = matches spec sum ≡ true

module _ {Url V C : Type 0} ⦃e : Eq Url⦄ ⦃v : Eq V⦄ where
  -- The entry that an index has for the spec is not yanked and bears a version that the spec allows.
  candidate-agrees :
      (spec : Spec Url V) (found : Entries Url V C) (x : V × ResolvedEntry Url V C)
      → IsKeyed found
      → last (candidates spec found) ≡ some x
      → agrees_with spec.version x.0 ≡ true
  candidate-agrees spec found x keyed h =
      let (same, chosen) = All-last _ (candidates spec found) x (All-keep _ _ found keyed) h in
      agrees_with_key spec.version x.0 x.1.version same (ground (arith, chosen))

  on_candidate-IsAllowed :
      (spec : Spec Url V) (ir : IndexRes Url) (ix : Index Url V C)
      (x : Option (V × ResolvedEntry Url V C)) (res res' : Option (Summary (PackageId Url) V))
      → candidate spec (index_entries ix spec.name) ≡ x
      → on_candidate spec ir x res ≡ ok res'
      → agrees_with spec.resolution (index_res ir) ≡ true
      → IsAllowed spec res
      → IsAllowed spec res'
  on_candidate-IsAllowed spec ir ix none res res' c h same allowed =
      subst (IsAllowed spec) (ground (arith, h)) allowed
  on_candidate-IsAllowed spec ir ix (some x) (some existing) res' c h same allowed = cc
  on_candidate-IsAllowed spec ir ix (some x) none res' c h same allowed =
      elim (Result-cases (index_entries ix spec.name)) [
        | inl (f, failed) ↦ cc (rw failed at c)
        | inr (found, good) ↦
            let chosen : some (summary_in spec ir x.0) ≡ res' = ground (arith, h) in
            subst (IsAllowed spec) chosen (
              summary-matches spec ir x.0 same (
                candidate-agrees spec found x (index_entries-IsKeyed ix spec.name found good)
                  (rw good at c)))
      ]

  search_indices-IsAllowed :
      (spec : Spec Url V) (indices : IndexMap (IndexRes Url) (Index Url V C))
      (res r : Option (Summary (PackageId Url) V))
      → search_indices spec indices res ≡ ok r
      → IsAllowed spec res
      → IsAllowed spec r
  unfolding search_indices
  search_indices-IsAllowed spec [] res r h allowed =
      subst (IsAllowed spec) (ground (arith, h)) allowed
  search_indices-IsAllowed spec ((ir, ix) ∷ indices) res r h allowed =
      elim (Bool-cases (agrees_with spec.resolution (index_res ir))) [
        | inr f ↦ search_indices-IsAllowed spec indices res r (rw f at h) allowed
        | inl t ↦
            let h' = rw t at h in
            elim (Result-cases
              (on_candidate spec ir (candidate spec (index_entries ix spec.name)) res)) [
                | inl (f, failed) ↦ cc (rw failed at h')
                | inr (res', good) ↦
                    search_indices-IsAllowed spec indices res' r (rw good at h')
                      (on_candidate-IsAllowed spec ir ix _ res res' refl good t allowed)
              ]
      ]

  -- The package that `select_by_spec` chooses among the indices matches the spec: it has its name, and
  -- its resolution and version where it gives them.
  pub matches-select_by_spec :
      (s : Indices Url V C) (spec : Spec Url V) (sum : Summary (PackageId Url) V)
      → select_by_spec s spec ≡ ok sum
      → matches spec sum ≡ true
  unfolding select_by_spec
  matches-select_by_spec s spec sum h = elim (Result-cases (search_indices spec s.indices none)) [
    | inl (f, failed) ↦ cc (rw failed at h)
    | inr (r, good) ↦ by_found r good (rw good at h)
  ]
    where
      by_found :
          (r : Option (Summary (PackageId Url) V))
          → search_indices spec s.indices none ≡ ok r
          → or_error package_not_found r ≡ ok sum
          → matches spec sum ≡ true
      by_found none good h = cc
      by_found (some found) good h =
          subst (λ (x : Summary (PackageId Url) V). matches spec x ≡ true) (ground (arith, h))
            (search_indices-IsAllowed spec s.indices none (some found) good tt)
