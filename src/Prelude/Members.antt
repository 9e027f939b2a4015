-- ===== src/Prelude/Members.antt =====
-- Lists of native numbers as sets: membership, tests of all members, counting.
use Prim.Native.Nat.{ℕ, zero, suc, ◌+◌, ◌<◌, ◌≤◌}
use mathlib.Core.Path.{◌≡◌, refl, sym, ◌∙◌, subst}
use mathlib.Core.Bool.{Bool, true, false, ◌&&◌, ◌||◌}
use mathlib.Core.List.{List, [], ◌∷◌, ◌++◌}
use mathlib.Core.Logic.{◌⊎◌, inl, inr}
use native.Mathlib.Omega.{arith}
use elba.Prelude.Tests.{if◌then◌else◌, eqb, Bool-cases}
use elba.Prelude.Lists.{all_of, any_of, keep, is_nil}

abbrev pub contains : ℕ → List ℕ → Bool
contains a [] = false
contains a (x ∷ xs) = if eqb x a then true else contains a xs

abbrev pub IsDistinct : List ℕ → Type 0
IsDistinct [] = Unit
IsDistinct (x ∷ xs) = (contains x xs ≡ false) × IsDistinct xs

-- The numbers below `n`, from `i` on.
abbrev pub from_to : ℕ → ℕ → List ℕ
from_to i zero = []
from_to i (suc n) = i ∷ from_to (suc i) n

pub contains-from_to : (a i n : ℕ) → i ≤ a → a < i + n → contains a (from_to i n) ≡ true
contains-from_to a i zero h k = absurd (omega arith)
contains-from_to a i (suc n) h k = ground (arith, h, k, contains-from_to a (suc i) n)

pub all_of-contains :
    (p : ℕ → Bool) (xs : List ℕ) (a : ℕ) → all_of p xs ≡ true → contains a xs ≡ true → p a ≡ true
all_of-contains p [] a h k = cc
all_of-contains p (x ∷ xs) a h k = elim (Bool-cases (eqb x a)) [
  | inl b ↦ let same : x ≡ a = ground (arith, b) in subst (λ z. p z ≡ true) same (ground (arith, h))
  | inr b ↦ all_of-contains p xs a (ground (arith, h)) (rw b at k)
]

pub all_of_each :
    (p : ℕ → Bool) (xs : List ℕ)
    → ((a : ℕ) → contains a xs ≡ true → p a ≡ true)
    → all_of p xs ≡ true
all_of_each p [] h = refl
all_of_each p (x ∷ xs) h =
    let first : p x ≡ true = h x (ground arith) in
    ground (arith, first, all_of_each p xs (λ a m. h a (ground (arith, m))))

pub contains-keep :
    (p : ℕ → Bool) (xs : List ℕ) (a : ℕ) → contains a (keep p xs) ≡ (contains a xs && p a)
contains-keep p [] a = refl
contains-keep p (x ∷ xs) a = elim (Bool-cases (eqb x a)) [
  | inl b ↦
      let same : x ≡ a = ground (arith, b) in
      elim (Bool-cases (p x)) [
        | inl t ↦ rw (t, b, subst (λ z. p z ≡ true) same t) refl
        | inr f ↦ rw (f, b, contains-keep p xs a, subst (λ z. p z ≡ false) same f) (ground arith)
      ]
  | inr b ↦ elim (Bool-cases (p x)) [
    | inl t ↦ rw (t, b) (contains-keep p xs a)
    | inr f ↦ rw (f, b) (contains-keep p xs a)
  ]
]

pub contains-append :
    (xs ys : List ℕ) (a : ℕ) → contains a (xs ++ ys) ≡ (contains a xs || contains a ys)
contains-append [] ys a = refl
contains-append (x ∷ xs) ys a = ground (arith, contains-append xs ys a)

pub IsDistinct-snoc :
    (xs : List ℕ) (a : ℕ) → IsDistinct xs → contains a xs ≡ false → IsDistinct (xs ++ a ∷ [])
IsDistinct-snoc [] a h n = (refl, tt)
IsDistinct-snoc (x ∷ xs) a h n = (
  contains-append xs (a ∷ []) x ∙ ground (arith, h.0, n),
  IsDistinct-snoc xs a h.1 (ground (arith, n)),
)

-- How many members pass a test.
abbrev pub count : (ℕ → Bool) → List ℕ → ℕ
count p [] = 0
count p (x ∷ xs) = let rest = count p xs in if p x then suc rest else rest

pub count-le :
    (p q : ℕ → Bool) (xs : List ℕ) → ((a : ℕ) → q a ≡ true → p a ≡ true) → count q xs ≤ count p xs
count-le p q [] h = omega arith
count-le p q (x ∷ xs) h = ground (arith, h x, count-le p q xs h)

-- A test that fewer pass has a smaller count.
pub count-lt :
    (p q : ℕ → Bool) (xs : List ℕ) (a : ℕ)
    → ((b : ℕ) → q b ≡ true → p b ≡ true)
    → contains a xs ≡ true
    → p a ≡ true
    → q a ≡ false
    → count q xs < count p xs
count-lt p q [] a h m t f = cc
count-lt p q (x ∷ xs) a h m t f = elim (Bool-cases (eqb x a)) [
  | inl b ↦
      let same : x ≡ a = ground (arith, b) in
      ground (
        arith,
        subst (λ z. p z ≡ true) (sym same) t,
        subst (λ z. q z ≡ false) (sym same) f,
        count-le p q xs h,
      )
  | inr b ↦ ground (arith, h x, count-lt p q xs a h (rw b at m) t f)
]

pub contains-from_to_lt : (a i n : ℕ) → contains a (from_to i n) ≡ true → a < i + n
contains-from_to_lt a i zero h = cc
contains-from_to_lt a i (suc n) h = elim (Bool-cases (eqb i a)) [
  | inl b ↦ ground (arith, b)
  | inr b ↦ omega (arith, contains-from_to_lt a (suc i) n (rw b at h))
]

pub count-from_to : (p : ℕ → Bool) (i n : ℕ) → count p (from_to i n) ≤ n
count-from_to p i zero = omega arith
count-from_to p i (suc n) = ground (arith, count-from_to p (suc i) n)

-- A test of all members either finds one or fails on each.
pub any_of-cases :
    (p : ℕ → Bool) (xs : List ℕ)
    → ((a : ℕ) × (contains a xs ≡ true) × (p a ≡ true) × (any_of p xs ≡ true))
      ⊎ ((any_of p xs ≡ false) × ((a : ℕ) → contains a xs ≡ true → p a ≡ false))
any_of-cases p [] = inr (refl, λ a. cc)
any_of-cases p (x ∷ xs) = elim (Bool-cases (p x)) [
  | inl b ↦ inl (x, ground arith, b, rw b refl)
  | inr b ↦ elim (any_of-cases p xs) [
    | inl (a, m, t, any) ↦ inl (a, ground (arith, m), t, rw b any)
    | inr (rest, all) ↦ inr (
      rw b rest,
      λ a m. elim (Bool-cases (eqb x a)) [
        | inl e ↦ let same : x ≡ a = ground (arith, e) in subst (λ z. p z ≡ false) same b
        | inr e ↦ all a (rw e at m)
      ],
    )
  ]
]

pub some_member : (xs : List ℕ) → is_nil xs ≡ false → (a : ℕ) × (contains a xs ≡ true)
some_member [] h = cc
some_member (x ∷ xs) h = (x, ground arith)

pub nil-absent : (xs : List ℕ) (a : ℕ) → is_nil xs ≡ true → contains a xs ≡ false
nil-absent [] a h = refl
nil-absent (x ∷ xs) a h = cc
