-- ===== src/Retrieve/Best.antt =====
-- The version that is chosen among the entries of an index.
use elba.Prelude.{
  Bool, true, false, not, Option, none, some, List, [], ◌∷◌, ◌≡◌, refl, ap, inl, inr, arith, All,
  map, keep, Bool-cases, if◌then◌else◌, subst, some_inj,
}
use elba.Prelude.IndexMap.{IndexMap}
use elba.Prelude.Outcome.{ok, or_error, package_not_found}
use elba.Semver.{Semver}
use elba.Remote.Index.{last}
use elba.Remote.Index.Chosen.{All-last}
use elba.Remote.Index.Loaded.{IsAscending}
use elba.Retrieve.Choose.{allowed, pick, preferred}

module _ {V : Type 0} (before : V → V → Bool) where
  -- The versions ascend, in the weak sense.
  abbrev Ascends : List V → Type 0
  Ascends [] = Unit
  Ascends (x ∷ xs) = All (λ y. before y x ≡ false) xs × Ascends xs

  All-keep_of :
      {A : Type 0} (Q : A → Type 0) (p : A → Bool) (xs : List A) → All Q xs → All Q (keep p xs)
  All-keep_of Q p [] h = tt
  All-keep_of Q p (x ∷ xs) h = elim (Bool-cases (p x)) [
    | inl t ↦ rw t (h.0, All-keep_of Q p xs h.1)
    | inr f ↦ rw f (All-keep_of Q p xs h.1)
  ]

  keep-Ascends : (p : V → Bool) (xs : List V) → Ascends xs → Ascends (keep p xs)
  keep-Ascends p [] h = tt
  keep-Ascends p (x ∷ xs) h = elim (Bool-cases (p x)) [
    | inl t ↦ rw t (All-keep_of _ p xs h.0, keep-Ascends p xs h.1)
    | inr f ↦ rw f (keep-Ascends p xs h.1)
  ]

  All-keys :
      {E : Type 0} (Q : V → Type 0) (m : IndexMap V E)
      → All (λ (k, en). Q k) m
      → All Q (map (λ (k, en). k) m)
  All-keys Q [] h = tt
  All-keys Q ((k, en) ∷ m) h = (h.0, All-keys Q m h.1)

  keys-Ascends :
      {E : Type 0} (m : IndexMap V E) → IsAscending before m → Ascends (map (λ (k, en). k) m)
  keys-Ascends [] h = tt
  keys-Ascends ((k, en) ∷ m) h = (All-keys _ m h.0, keys-Ascends m h.1)

  -- The last of an ascending list has no other after it.
  last-greatest :
      (irrefl : (x : V) → before x x ≡ false) (xs : List V) (l : V)
      → Ascends xs
      → last xs ≡ some l
      → All (λ x. before l x ≡ false) xs
  last-greatest irrefl [] l h e = cc
  last-greatest irrefl (x ∷ []) l h e =
      (subst (λ y. before y x ≡ false) (some_inj e) (irrefl x), tt)
  last-greatest irrefl (x ∷ y ∷ ys) l h e =
      (All-last (λ z. before z x ≡ false) (y ∷ ys) l h.0 e, last-greatest irrefl (y ∷ ys) l h.1 e)

abbrev pub is_nil : {A : Type 0} → List A → Bool
is_nil [] = true
is_nil (x ∷ xs) = false

module _ {V C : Type 0} (sv : Semver V C) where
  -- A version that the constraint allows, and whether it comes before a release.
  abbrev IsOf : C → Bool → V → Type 0
  IsOf con pre x = (sv.satisfies con x ≡ true) × (sv.is_prerelease x ≡ pre)

  abbrev of_kind : Bool → V → Bool
  of_kind pre x = if pre then sv.is_prerelease x else not (sv.is_prerelease x)

  kept-IsOf :
      (con : C) (pre : Bool) (xs : List V)
      → All (IsOf con pre) (keep (of_kind pre) (keep (sv.satisfies con) xs))
  kept-IsOf con pre [] = tt
  kept-IsOf con pre (x ∷ xs) = elim (Bool-cases (sv.satisfies con x)) [
    | inr f ↦ rw f (kept-IsOf con pre xs)
    | inl t ↦ elim (Bool-cases (of_kind pre x)) [
      | inl k ↦ rw (t, k) ((t, kind pre k), kept-IsOf con pre xs)
      | inr k ↦ rw (t, k) (kept-IsOf con pre xs)
    ]
  ]
    where
      kind : (p : Bool) → of_kind p x ≡ true → sv.is_prerelease x ≡ p
      kind true h = h
      kind false h = ground (arith, h)

module _ {V C : Type 0} (sv : Semver V C) (before : V → V → Bool) where
  best_of :
      (irrefl : (x : V) → before x x ≡ false) (con : C) (releases pres : List V) (l : V)
      → All (IsOf sv con false) releases
      → All (IsOf sv con true) pres
      → Ascends before releases
      → Ascends before pres
      → last (preferred releases pres) ≡ some l
      → (sv.satisfies con l ≡ true)
        × (sv.is_prerelease l ≡ is_nil releases)
        × All (λ x. before l x ≡ false) (preferred releases pres)
  best_of irrefl con [] pres l r p ra pa e =
      let (allows, kind) = All-last (IsOf sv con true) pres l p e in
      (allows, kind, last-greatest before irrefl pres l pa e)
  best_of irrefl con (x ∷ xs) pres l r p ra pa e =
      let (allows, kind) = All-last (IsOf sv con false) (x ∷ xs) l r e in
      (allows, kind, last-greatest before irrefl (x ∷ xs) l ra e)

module _ {V E : Type 0} where
  -- The same versions with other entries.
  abbrev pub with_entries : (E → E) → IndexMap V E → IndexMap V E
  with_entries f m = map (λ (k, en). (k, f en)) m

  keys-with_entries :
      (f : E → E) (m : IndexMap V E) → map (λ (k, en). k) (with_entries f m) ≡ map (λ (k, en). k) m
  keys-with_entries f [] = refl
  keys-with_entries f ((k, en) ∷ m) = ap (λ ks. k ∷ ks) (keys-with_entries f m)

module _ {V C E : Type 0} (sv : Semver V C) (before : V → V → Bool) where
  allowed-Ascends :
      (con : C) (pre : Bool) (m : IndexMap V E)
      → IsAscending before m
      → Ascends before (allowed sv con pre m)
  allowed-Ascends con pre m h =
      keep-Ascends before _ _ (keep-Ascends before (sv.satisfies con) _ (keys-Ascends before m h))

  -- The best of the versions that are preferred.
  abbrev pub IsBest : C → IndexMap V E → V → Type 0
  IsBest con m l =
      (sv.satisfies con l ≡ true)
      × (sv.is_prerelease l ≡ is_nil (allowed sv con false m))
      × All (λ x. before l x ≡ false) (preferred (allowed sv con false m) (allowed sv con true m))

  -- Of entries in the order of their versions, `best` picks, when it does not minimize, a version that
  -- the constraint allows; it is a release exactly if the constraint allows any release; and no version of that
  -- kind that the constraint allows comes after it. It looks at the versions alone: whatever else the
  -- entries say, that a version is yanked for one, it picks the same.
  pub pick-IsBest :
      (irrefl : (x : V) → before x x ≡ false) (con : C) (m : IndexMap V E) (l : V)
      → IsAscending before m
      → pick sv con false m ≡ ok l
      → IsBest con m l × ((f : E → E) → pick sv con false (with_entries f m) ≡ ok l)
  unfolding pick
  pick-IsBest irrefl con m l h e = (
    best_of sv before irrefl con (allowed sv con false m) (allowed sv con true m) l
        (kept-IsOf sv con false (map (λ (k, en). k) m))
        (kept-IsOf sv con true (map (λ (k, en). k) m)) (allowed-Ascends con false m h)
        (allowed-Ascends con true m h) (found _ e),
    λ f. rw (keys-with_entries f m) e,
  )
    where
      found : (o : Option V) → or_error package_not_found o ≡ ok l → o ≡ some l
      found none e = cc
      found (some x) e = ground (arith, e)
