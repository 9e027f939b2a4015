-- ===== src/Build/Target/Order.antt =====
-- build/mod.rs, `Targets::new`: where the library target stands.
use elba.Prelude.{
  ◌∙◌, Bool, true, false, not, ◌||◌, List, [], ◌∷◌, ◌≡◌, refl, inl, inr, arith, any_of, Bool-cases,
}
use elba.Build.Target.{
  Target, lib, bin, test, doc, before, insert_target, sort_targets, snoc, collect_targets,
  new_targets, is_lib, is_doc, has_lib,
}

-- A library target stands at the head alone.
abbrev pub LibFirst : List Target → Type 0
LibFirst [] = Unit
LibFirst (t ∷ ts) = any_of is_lib ts ≡ false

any-insert_target :
    (p : Target → Bool) (t : Target) (ts : List Target)
    → any_of p (insert_target t ts) ≡ (p t || any_of p ts)
unfolding insert_target
any-insert_target p t [] = ground arith
any-insert_target p t (x ∷ xs) = ground (arith, any-insert_target p t xs)

any-sort_targets : (p : Target → Bool) (ts : List Target) → any_of p (sort_targets ts) ≡ any_of p ts
unfolding sort_targets
any-sort_targets p [] = refl
any-sort_targets p (t ∷ ts) =
    ground (arith, any-insert_target p t (sort_targets ts), any-sort_targets p ts)

any-snoc :
    (p : Target → Bool) (ts : List Target) (t : Target)
    → any_of p (snoc ts t) ≡ (any_of p ts || p t)
any-snoc p [] t = ground arith
any-snoc p (x ∷ xs) t = ground (arith, any-snoc p xs t)

-- The library targets of a sorted list come before all others.
abbrev Sorted : List Target → Type 0
Sorted [] = Unit
Sorted (t ∷ ts) = ((is_lib t || not (any_of is_lib ts)) ≡ true) × Sorted ts

-- A library target comes before any other, and no other before it.
before-lib : (x t : Target) → is_lib x ≡ false → before x t ≡ true → is_lib t ≡ false
before-lib x (lib c) h b = by_first x h b
  where
    by_first : (x : Target) → is_lib x ≡ false → before x (lib c) ≡ true → true ≡ false
    by_first (lib d) h b = h
    by_first (bin i) h b = cc
    by_first (test i) h b = cc
    by_first doc h b = cc
before-lib x (bin j) h b = refl
before-lib x (test j) h b = refl
before-lib x doc h b = refl

lib-before : (x t : Target) → is_lib t ≡ false → before x t ≡ false → is_lib x ≡ false
lib-before (lib c) (lib d) h b = cc
lib-before (lib c) (bin j) h b = cc
lib-before (lib c) (test j) h b = cc
lib-before (lib c) doc h b = cc
lib-before (bin i) t h b = refl
lib-before (test i) t h b = refl
lib-before doc t h b = refl

insert_target-Sorted : (t : Target) (ts : List Target) → Sorted ts → Sorted (insert_target t ts)
unfolding insert_target
insert_target-Sorted t [] h = ground arith
insert_target-Sorted t (x ∷ xs) h = elim (Bool-cases (before x t)) [
  | inl b ↦ rw b (
    ground (arith, h.0, before-lib x t, b, any-insert_target is_lib t xs),
    insert_target-Sorted t xs h.1,
  )
  | inr b ↦ rw b (ground (arith, h.0, lib-before x t, b), h)
]

sort_targets-Sorted : (ts : List Target) → Sorted (sort_targets ts)
unfolding sort_targets
sort_targets-Sorted [] = tt
sort_targets-Sorted (t ∷ ts) = insert_target-Sorted t (sort_targets ts) (sort_targets-Sorted ts)

LibFirst-snoc :
    (ts : List Target) (t : Target) → is_lib t ≡ false → LibFirst ts → LibFirst (snoc ts t)
LibFirst-snoc [] t n h = refl
LibFirst-snoc (x ∷ xs) t n h = any-snoc is_lib xs t ∙ ground (arith, n, h)

has_lib-snoc : (ts : List Target) (t : Target) → has_lib ts ≡ true → has_lib (snoc ts t) ≡ true
has_lib-snoc [] t h = cc
has_lib-snoc (x ∷ xs) t h = h

-- After a library target has been seen the loop adds no other.
collect_seen :
    (ts res : List Target)
    → has_lib res ≡ true
    → LibFirst res
    → LibFirst (collect_targets ts true res) × (has_lib (collect_targets ts true res) ≡ true)
unfolding collect_targets
collect_seen [] res h f = (f, h)
collect_seen (lib c ∷ ts) res h f = collect_seen ts res h f
collect_seen (bin i ∷ ts) res h f =
    collect_seen ts (snoc res (bin i)) (has_lib-snoc res (bin i) h)
      (LibFirst-snoc res (bin i) refl f)
collect_seen (test i ∷ ts) res h f =
    collect_seen ts (snoc res (test i)) (has_lib-snoc res (test i) h)
      (LibFirst-snoc res (test i) refl f)
collect_seen (doc ∷ ts) res h f =
    collect_seen ts (snoc res doc) (has_lib-snoc res doc h) (LibFirst-snoc res doc refl f)

-- Before that, nothing that is collected is a library target.
no_lib-LibFirst : (ts : List Target) → any_of is_lib ts ≡ false → LibFirst ts × (has_lib ts ≡ false)
no_lib-LibFirst [] h = (tt, refl)
no_lib-LibFirst (t ∷ ts) h = ground (arith, h)

collect_unseen :
    (ts res : List Target)
    → any_of is_lib res ≡ false
    → any_of is_lib ts ≡ false
    → LibFirst (collect_targets ts false res)
      × (has_lib (collect_targets ts false res) ≡ any_of is_doc ts)
unfolding collect_targets
collect_unseen [] res r h = no_lib-LibFirst res r
collect_unseen (lib c ∷ ts) res r h = cc
collect_unseen (bin i ∷ ts) res r h =
    collect_unseen ts (snoc res (bin i)) (any-snoc is_lib res (bin i) ∙ ground (arith, r)) h
collect_unseen (test i ∷ ts) res r h =
    collect_unseen ts (snoc res (test i)) (any-snoc is_lib res (test i) ∙ ground (arith, r)) h
collect_unseen (doc ∷ ts) res r h =
    collect_seen ts (snoc (lib false ∷ res) doc) refl (any-snoc is_lib res doc ∙ ground (arith, r))

collect_in_order :
    (ts : List Target)
    → Sorted ts
    → LibFirst (collect_targets ts false [])
      × (has_lib (collect_targets ts false []) ≡ (any_of is_lib ts || any_of is_doc ts))
unfolding collect_targets
collect_in_order [] h = (tt, refl)
collect_in_order (lib c ∷ ts) h = collect_seen ts (lib c ∷ []) refl refl
collect_in_order (bin i ∷ ts) h =
    let none_later : any_of is_lib ts ≡ false = ground (arith, h.0) in
    rw none_later (collect_unseen ts (bin i ∷ []) refl none_later)
collect_in_order (test i ∷ ts) h =
    let none_later : any_of is_lib ts ≡ false = ground (arith, h.0) in
    rw none_later (collect_unseen ts (test i ∷ []) refl none_later)
collect_in_order (doc ∷ ts) h =
    let none_later : any_of is_lib ts ≡ false = ground (arith, h.0) in
    rw none_later (collect_seen ts (lib false ∷ doc ∷ []) refl refl)

-- Of any targets asked for, `Targets::new` makes a list in which no library target stands behind
-- another target, or behind a library target; and a library target is there exactly if one was asked
-- for, or the documentation.
pub new_targets-LibFirst :
    (ts : List Target)
    → LibFirst (new_targets ts)
      × (has_lib (new_targets ts) ≡ (any_of is_lib ts || any_of is_doc ts))
unfolding new_targets
new_targets-LibFirst ts =
    rw (← any-sort_targets is_lib ts, ← any-sort_targets is_doc ts)
      (collect_in_order (sort_targets ts) (sort_targets-Sorted ts))
