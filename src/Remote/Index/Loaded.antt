-- ===== src/Remote/Index/Loaded.antt =====
-- What is loaded from an index, and what the cache holds: entries under their versions, in order.
use elba.Prelude.{
  Bool, true, false, Option, none, some, List, [], ◌∷◌, ◌≡◌, refl, inl, inr, Eq, ◌==◌, arith, All,
  All-map_of, Bool-cases, Option-cases, subst, some_inj, ◌∙◌,
}
use elba.Prelude.IndexMap.{IndexMap, get, insert, get-insert}
use elba.Prelude.Outcome.{Result, ok, err, Result-cases}
use elba.Package.Name.{Name}
use elba.Package.PackageId.{PackageId, package_eq, package_eqb_refl}
use elba.Remote.Index.{
  Index, ResolvedEntry, RawEntry, Entries, Indices, add_lines, resolve_entry, index_entries,
  insert_key, sort_keys, entries, load, remember, recall,
}
use elba.Remote.IndexRes.{index_eq}
use elba.Remote.Resolution.{Resolution, direct_res, index_res}

-- The order of versions is total, and its reverse is too.
pub record IsOrder {V : Type 0} (before : V → V → Bool) : Type 0 where
  pub asym : (a b : V) → before a b ≡ true → before b a ≡ false
  pub trans : (a b c : V) → before b a ≡ false → before c b ≡ false → before c a ≡ false

module _ {V E : Type 0} (before : V → V → Bool) where
  -- No key comes before an earlier one.
  abbrev pub IsAscending : IndexMap V E → Type 0
  IsAscending [] = Unit
  IsAscending ((k, a) ∷ m) = All (λ (j, b). before j k ≡ false) m × IsAscending m

  pub All-insert_key :
      (Q : V × E → Type 0) (k : V) (a : E) (m : IndexMap V E)
      → Q (k, a)
      → All Q m
      → All Q (insert_key before k a m)
  unfolding insert_key
  All-insert_key Q k a [] q h = (q, tt)
  All-insert_key Q k a ((j, b) ∷ m) q h = elim (Bool-cases (before k j)) [
    | inl t ↦ rw t (q, h)
    | inr f ↦ rw f (h.0, All-insert_key Q k a m q h.1)
  ]

  pub All-sort_keys : (Q : V × E → Type 0) (m : IndexMap V E) → All Q m → All Q (sort_keys before m)
  unfolding sort_keys
  All-sort_keys Q [] h = tt
  All-sort_keys Q ((k, a) ∷ m) h =
      All-insert_key Q k a (sort_keys before m) h.0 (All-sort_keys Q m h.1)

  module _ (order : IsOrder before) where
    insert_key-IsAscending :
        (k : V) (a : E) (m : IndexMap V E) → IsAscending m → IsAscending (insert_key before k a m)
    unfolding insert_key
    insert_key-IsAscending k a [] h = (tt, tt)
    insert_key-IsAscending k a ((j, b) ∷ m) h = elim (Bool-cases (before k j)) [
      | inl t ↦
          let ahead = order.asym k j t in
          rw t ((ahead, All-map_of _ _ (λ (i, c) later. order.trans k j i ahead later) m h.0), h)
      | inr f ↦ rw f (
        All-insert_key (λ (i, c). before i j ≡ false) k a m f h.0,
        insert_key-IsAscending k a m h.1,
      )
    ]

    pub sort_keys-IsAscending : (m : IndexMap V E) → IsAscending (sort_keys before m)
    unfolding sort_keys
    sort_keys-IsAscending [] = tt
    sort_keys-IsAscending ((k, a) ∷ m) =
        insert_key-IsAscending k a (sort_keys before m) (sort_keys-IsAscending m)

module _ {Url V C : Type 0} ⦃v : Eq V⦄ where
  -- Each entry stands under its own version.
  abbrev pub IsKeyed : Entries Url V C → Type 0
  IsKeyed m = All (λ (k, en). (k == en.version) ≡ true) m

  insert-IsKeyed :
      (en : ResolvedEntry Url V C) (m : Entries Url V C)
      → IsKeyed m
      → IsKeyed (insert en.version en m)
  unfolding insert
  insert-IsKeyed en [] h = (v.beq_refl en.version, tt)
  insert-IsKeyed en ((k, b) ∷ m) h = elim (Bool-cases (k == en.version)) [
    | inl t ↦ rw (t, insert) (t, h.1)
    | inr f ↦ rw (f, insert) (h.0, insert-IsKeyed en m h.1)
  ]

  add_lines-IsKeyed :
      (ix : Index Url V C) (lines : List (Result (RawEntry Url V C))) (m found : Entries Url V C)
      → add_lines ix lines m ≡ ok found
      → IsKeyed m
      → IsKeyed found
  unfolding add_lines
  add_lines-IsKeyed ix [] m found h keyed = subst IsKeyed (ground (arith, h)) keyed
  add_lines-IsKeyed ix (err e ∷ lines) m found h keyed = cc
  add_lines-IsKeyed ix (ok raw ∷ lines) m found h keyed =
      elim (Result-cases (resolve_entry ix raw)) [
        | inl (e, same) ↦ cc (rw same at h)
        | inr (en, same) ↦
            add_lines-IsKeyed ix lines (insert en.version en m) found (rw same at h)
              (insert-IsKeyed en m keyed)
      ]

  pub index_entries-IsKeyed :
      (ix : Index Url V C) (name : Name) (found : Entries Url V C)
      → index_entries ix name ≡ ok found
      → IsKeyed found
  unfolding index_entries
  index_entries-IsKeyed ix name found h = elim (Option-cases (ix.lines name)) [
    | inl e ↦ cc (rw e at h)
    | inr (lines, e) ↦ add_lines-IsKeyed ix lines [] found (rw e at h) tt
  ]

module _ {K A : Type 0} ⦃e : Eq K⦄ (Q : A → Type 0) where
  get-All : (k : K) (m : IndexMap K A) (a : A) → All (λ (j, b). Q b) m → get k m ≡ some a → Q a
  unfolding get
  get-All k [] a h g = cc
  get-All k ((j, b) ∷ m) a h g = elim (Bool-cases (j == k)) [
    | inl t ↦ subst Q (some_inj (rw t at g)) h.0
    | inr f ↦ get-All k m a h.1 (rw f at g)
  ]

  insert-All :
      (k : K) (a : A) (m : IndexMap K A)
      → Q a
      → All (λ (j, b). Q b) m
      → All (λ (j, b). Q b) (insert k a m)
  unfolding insert
  insert-All k a [] q h = (q, tt)
  insert-All k a ((j, b) ∷ m) q h = elim (Bool-cases (j == k)) [
    | inl t ↦ rw (t, insert) (q, h.1)
    | inr f ↦ rw (f, insert) (h.0, insert-All k a m q h.1)
  ]

module _ {Url V C : Type 0} ⦃e : Eq Url⦄ ⦃v : Eq V⦄ (before : V → V → Bool) where
  abbrev pub IsLoaded : Entries Url V C → Type 0
  IsLoaded found = IsAscending before found × IsKeyed found

  -- Everything in the cache is as it is loaded.
  abbrev pub IsSound : Indices Url V C → Type 0
  IsSound s = All (λ (p, found). IsLoaded found) s.cache

  -- What an answer of `entries` is, with the indices as they then are.
  abbrev pub Answers : PackageId Url → Result (Entries Url V C) × Indices Url V C → Type 0
  Answers pkg (ok found, s) = IsLoaded found × (get pkg s.cache ≡ some found) × IsSound s
  Answers pkg (err e, s) = IsSound s

  module _ (order : IsOrder before) where
    load-IsLoaded :
        (pkg : PackageId Url) (r : Resolution Url) (s : Indices Url V C) (found : Entries Url V C)
        → load before pkg r s ≡ ok found
        → IsLoaded found
    load-IsLoaded pkg (direct_res d) s found h = cc
    load-IsLoaded pkg (index_res ir) s found h = elim (Option-cases (get ir s.indices)) [
      | inl none_there ↦ cc (rw none_there at h)
      | inr (ix, there) ↦
          let h' = rw there at h in
          elim (Result-cases (index_entries ix pkg.name)) [
            | inl (f, failed) ↦ cc (rw failed at h')
            | inr (read, good) ↦ subst IsLoaded (ground (arith, rw good at h')) (
              sort_keys-IsAscending before order read,
              All-sort_keys before _ read (index_entries-IsKeyed ix pkg.name read good),
            )
          ]
    ]

    remember-Answers :
        (pkg : PackageId Url) (s : Indices Url V C) (r : Result (Entries Url V C))
        → load before pkg pkg.resolution s ≡ r
        → IsSound s
        → Answers pkg (remember before pkg s r)
    remember-Answers pkg s (err f) e h = h
    remember-Answers pkg s (ok found) e h =
        let loaded = load-IsLoaded pkg pkg.resolution s found e in
        (
          loaded,
          get-insert pkg pkg found s.cache ∙ rw (package_eqb_refl pkg) refl,
          insert-All IsLoaded pkg found s.cache loaded h,
        )

    recall-Answers :
        (pkg : PackageId Url) (s : Indices Url V C) (o : Option (Entries Url V C))
        → get pkg s.cache ≡ o
        → IsSound s
        → Answers pkg (recall before pkg s o)
    recall-Answers pkg s (some found) e h = (get-All IsLoaded pkg s.cache found h e, e, h)
    recall-Answers pkg s none e h = remember-Answers pkg s (load before pkg pkg.resolution s) refl h

    -- Of indices whose cache holds entries under their own versions and in the order of the versions,
    -- `entries` gives such entries and keeps the cache such, whether they were in the cache or are read
    -- from an index; what it gives is then in the cache. On an error the cache stays such too.
    pub entries-Answers :
        (pkg : PackageId Url) (s : Indices Url V C) → IsSound s → Answers pkg (entries before pkg s)
    unfolding entries
    entries-Answers pkg s h = recall-Answers pkg s (get pkg s.cache) refl h
