-- ===== src/Retrieve/Incompats/Within.antt =====
-- The range of an incompatibility: what the entries in it depend on.
use elba.Prelude.{
  Bool, true, false, ◌&&◌, some, List, [], ◌∷◌, ◌++◌, ◌≡◌, refl, sym, subst, ◌∙◌, ◌⊎◌, inl, inr, Eq,
  ◌==◌, arith, All, All-map_of, Bool-cases, some_inj,
}
use elba.Semver.{Semver, is_equal}
use elba.Prelude.Text.{text_eqb_refl}
use elba.Remote.DirectRes.{direct_eqb_refl}
use elba.Remote.Index.{Dep, Entries, ResolvedEntry}
use elba.Remote.IndexRes.{IndexRes}
use elba.Retrieve.Incompats.{Place, Ranges, find_place, widen, span}
use elba.Retrieve.Incompats.Widening.{covered, last_covered, covered_by_last, widen-cons}

-- A closed range admits no version outside its bounds, and a constraint is equal to itself.
pub record RangeLaws {V C : Type 0} (sv : Semver V C) (rs : Ranges V C) (before : V → V → Bool)
    : Type 0 where
  pub above :
      (lower upper x : V) (c : C)
      → rs.closed lower upper ≡ some c
      → sv.satisfies c x ≡ true
      → before x lower ≡ false
  pub below :
      (lower upper x : V) (c : C)
      → rs.closed lower upper ≡ some c
      → sv.satisfies c x ≡ true
      → before upper x ≡ false
  pub itself : (c : C) → is_equal (sv.relation c c) ≡ true

module _ {Url V C : Type 0} where
  -- Each entry is beyond those before it.
  abbrev Away : (V → V → Bool) → Entries Url V C → Type 0
  Away beyond [] = Unit
  Away beyond ((k, en) ∷ m) = All (λ (j, x). beyond j k ≡ true) m × Away beyond m

  -- Each version comes before all that follow.
  abbrev pub Ascends : (V → V → Bool) → Entries Url V C → Type 0
  Ascends before m = Away (λ j k. before k j) m

module _ {Url V C : Type 0} ⦃e : Eq Url⦄ (sv : Semver V C) (dep : Dep (IndexRes Url) C)
    (beyond : V → V → Bool) where
  -- The entry is covered, or beyond the bound.
  abbrev IsCut : V → V × ResolvedEntry Url V C → Type 0
  IsCut bound (k, en) = (covered sv dep en.dependencies ≡ true) ⊎ (beyond k bound ≡ true)

  all_beyond :
      (bound : V) (m : Entries Url V C)
      → All (λ (j, x). beyond j bound ≡ true) m
      → All (IsCut bound) m
  all_beyond bound [] h = tt
  all_beyond bound ((k, en) ∷ m) h = (inr h.0, all_beyond bound m h.1)

  widen-IsCut :
      (bound : V) (m : Entries Url V C)
      → All (λ (j, x). beyond j bound ≡ true) m
      → Away beyond m
      → All (IsCut (widen sv dep bound m).0) m
  widen-IsCut bound [] h a = tt
  widen-IsCut bound ((k, en) ∷ m) h a = elim (Bool-cases (last_covered sv dep en.dependencies)) [
    | inl on ↦
        let on' : covered sv dep en.dependencies ≡ true =
          covered_by_last sv dep en.dependencies false on in
        cut (widen sv dep k m) (widen-cons sv dep bound k en m ∙ rw (on, on') refl)
          (inl on', widen-IsCut k m a.0 a.1)
    | inr off ↦ elim (Bool-cases (covered sv dep en.dependencies)) [
      | inl c ↦
          cut (k, false) (widen-cons sv dep bound k en m ∙ rw (off, c) refl)
            (inl c, all_beyond k m a.0)
      | inr c ↦
          cut (bound, false) (widen-cons sv dep bound k en m ∙ rw (off, c) refl)
            (all_beyond bound ((k, en) ∷ m) h)
    ]
  ]
    where
      cut :
          (r : V × Bool)
          → widen sv dep bound ((k, en) ∷ m) ≡ r
          → All (IsCut r.0) ((k, en) ∷ m)
          → All (IsCut (widen sv dep bound ((k, en) ∷ m)).0) ((k, en) ∷ m)
      cut r same all = subst (λ z. All (IsCut z.0) ((k, en) ∷ m)) (sym same) all

  widen-all :
      (bound : V) (m : Entries Url V C)
      → (widen sv dep bound m).1 ≡ true
      → All (λ (k, en). covered sv dep en.dependencies ≡ true) m
  widen-all bound [] h = tt
  widen-all bound ((k, en) ∷ m) h = elim (Bool-cases (last_covered sv dep en.dependencies)) [
    | inl on ↦
        let on' : covered sv dep en.dependencies ≡ true =
          covered_by_last sv dep en.dependencies false on in
        (on', widen-all k m (rw (widen-cons sv dep bound k en m, on, on') at h))
    | inr off ↦ cc (rw (widen-cons sv dep bound k en m, off) at h)
  ]

module _ {Url V C : Type 0} ⦃v : Eq V⦄ where
  -- What holds of all parts of a place holds of all entries.
  All-find_place :
      (Q : V × ResolvedEntry Url V C → Type 0) (ver : V) (passed m : Entries Url V C)
      (place : Place Url V C)
      → find_place ver passed m ≡ some place
      → All Q place.earlier
      → Q (place.version, place.entry)
      → All Q place.later
      → All Q passed × All Q m
  unfolding find_place
  All-find_place Q ver passed [] place h a q b = cc
  All-find_place Q ver passed ((k, en) ∷ m) place h a q b = elim (Bool-cases (k == ver)) [
    | inl t ↦
        let same = some_inj (rw t at h) in
        (
          subst (λ p. All Q p.earlier) (sym same) a,
          (
            subst (λ p. Q (p.version, p.entry)) (sym same) q,
            subst (λ p. All Q p.later) (sym same) b,
          ),
        )
    | inr f ↦
        let (x, y) = All-find_place Q ver ((k, en) ∷ passed) m place (rw f at h) a q b in
        (x.1, (x.0, y))
  ]

  module _ (before : V → V → Bool) where
    -- The entries of a place go away from its version, to both sides.
    record IsCentre (place : Place Url V C) : Type 0 where
      near_earlier : All (λ (j, x). before j place.version ≡ true) place.earlier
      earlier_away : Away before place.earlier
      near_later : All (λ (j, x). before place.version j ≡ true) place.later
      later_away : Ascends before place.later

    find_place-IsCentre :
        (ver : V) (passed m : Entries Url V C) (place : Place Url V C)
        → Away before passed
        → Ascends before m
        → All (λ (j, x). All (λ (p, y). before p j ≡ true) passed) m
        → find_place ver passed m ≡ some place
        → IsCentre place
    unfolding find_place
    find_place-IsCentre ver passed [] place a b c h = cc
    find_place-IsCentre ver passed ((k, en) ∷ m) place a b c h = elim (Bool-cases (k == ver)) [
      | inl t ↦
          subst IsCentre (some_inj (rw t at h))
            (record { near_earlier = c.0; earlier_away = a; near_later = b.0; later_away = b.1 })
      | inr f ↦
          find_place-IsCentre ver ((k, en) ∷ passed) m place (c.0, a) b.1 (both m b.0 c.1)
            (rw f at h)
    ]
      where
        both :
            (n : Entries Url V C)
            → All (λ (j, x). before k j ≡ true) n
            → All (λ (j, x). All (λ (p, y). before p j ≡ true) passed) n
            → All (λ (j, x). All (λ (p, y). before p j ≡ true) ((k, en) ∷ passed)) n
        both [] x y = tt
        both (z ∷ n) x y = ((x.0, y.0), both n x.1 y.1)

All-at : {A : Type 0} (P : A → Type 0) (xs ys : List A) (y : A) → All P (xs ++ y ∷ ys) → P y
All-at P [] ys y h = h.0
All-at P (x ∷ xs) ys y h = All-at P xs ys y h.1

module _ {Url V C : Type 0} ⦃e : Eq Url⦄ ⦃v : Eq V⦄ (sv : Semver V C) (rs : Ranges V C)
    (before : V → V → Bool) (laws : RangeLaws sv rs before) (dep : Dep (IndexRes Url) C) where
  -- If the constraint admits the version, the entry is covered.
  abbrev Within : C → V × ResolvedEntry Url V C → Type 0
  Within c (k, en) = sv.satisfies c k ≡ true → covered sv dep en.dependencies ≡ true

  covered_itself : (ds es : List (Dep (IndexRes Url) C)) → covered sv dep (ds ++ dep ∷ es) ≡ true
  covered_itself [] es = ground (
    arith,
    text_eqb_refl dep.name.normalization,
    direct_eqb_refl dep.index.res,
    laws.itself dep.req,
  )
  covered_itself (d ∷ ds) es = ground (arith, covered_itself ds es)

  Within-cut :
      (beyond : V → V → Bool) (bound : V) (c : C)
      → ((x : V) → sv.satisfies c x ≡ true → beyond x bound ≡ false)
      → (m : Entries Url V C) → All (IsCut sv dep beyond bound) m
      → All (Within c) m
  Within-cut beyond bound c out m h = All-map_of (IsCut sv dep beyond bound) (Within c) inside m h
    where
      inside : (x : V × ResolvedEntry Url V C) → IsCut sv dep beyond bound x → Within c x
      inside (k, en) (inl t) s = t
      inside (k, en) (inr far) s = cc (far, out k s)

  span-Within :
      (place : Place Url V C) (c : C)
      → IsCentre before place
      → span sv rs place dep ≡ some c
      → All (Within c) place.earlier × All (Within c) place.later
  unfolding span
  span-Within place c h made =
      let (lower, at_start) = widen sv dep place.version place.earlier in
      let (upper, at_end) = widen sv dep place.version place.later in
      elim (Bool-cases (at_start && at_end)) [
        | inl whole ↦ (
          All-map_of _ (Within c) (λ x t s. t) place.earlier
              (widen-all sv dep before place.version place.earlier (ground (arith, whole))),
          All-map_of _ (Within c) (λ x t s. t) place.later
              (widen-all sv dep before place.version place.later (ground (arith, whole))),
        )
        | inr part ↦
            let closed = rw part at made in
            (
              Within-cut before lower c (λ x. laws.above lower upper x c closed) place.earlier
                  (widen-IsCut sv dep before place.version place.earlier h.near_earlier
                    h.earlier_away),
              Within-cut (λ j k. before k j) upper c (λ x. laws.below lower upper x c closed)
                  place.later
                  (widen-IsCut sv dep (λ j k. before k j) place.version place.later h.near_later
                    h.later_away),
            )
      ]

  -- Where the versions of the entries ascend, and `place` is that of a version among them with a
  -- dependency `dep`, every entry whose version the range of the incompatibility for `dep` admits has a
  -- dependency on the same package that asks for no more than `dep` allows; that a closed range admits
  -- nothing outside its bounds, and that a constraint is equal to itself, are hypotheses.
  pub span-covered :
      (ver : V) (place : Place Url V C) (c : C) (earlier later : Entries Url V C) (k : V)
      (en : ResolvedEntry Url V C)
      → Ascends before (earlier ++ (k, en) ∷ later)
      → find_place ver [] (earlier ++ (k, en) ∷ later) ≡ some place
      → (ds es : List (Dep (IndexRes Url) C)) → place.entry.dependencies ≡ ds ++ dep ∷ es
      → span sv rs place dep ≡ some c
      → sv.satisfies c k ≡ true
      → covered sv dep en.dependencies ≡ true
  span-covered ver place c earlier later k en order found ds es at made =
      let m = earlier ++ (k, en) ∷ later in
      let (a, b) =
        span-Within place c
          (find_place-IsCentre before ver [] m place tt order (none_passed m) found) made in
      All-at (Within c) earlier later (k, en)
        ((All-find_place (Within c) ver [] m place found a (λ s. rw at (covered_itself ds es)) b).1)
    where
      none_passed : (n : Entries Url V C) → All (λ (j, x). Unit {0}) n
      none_passed [] = tt
      none_passed (x ∷ n) = (tt, none_passed n)
