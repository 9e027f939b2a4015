-- ===== src/Prelude/IndexMap.antt =====
-- `indexmap::IndexMap` as the list of its entries in iteration order: `insert` writes in place and
-- keeps the old key, or appends; `remove` swaps the last entry into the gap.
use mathlib.Core.Path.{◌≡◌, refl, ◌∙◌}
use mathlib.Core.Bool.{Bool, true, false}
use mathlib.Core.Option.{Option, none, some}
use mathlib.Core.List.{List, [], ◌∷◌}
use native.Mathlib.Omega.{arith}
use mathlib.Core.Logic.{inl, inr}
use elba.Prelude.Tests.{if◌then◌else◌, Bool-cases}
use elba.Prelude.Keys.{Eq, ◌==◌, beq_comm}

abbrev pub IndexMap {ℓ κ} : Type ℓ → Type κ → Type (ℓ ⊔ κ)
IndexMap K V = List (K × V)

abbrev pub is_some {ℓ} : {A : Type ℓ} → Option A → Bool
is_some none = false
is_some (some a) = true

module _ {ℓ κ} {K : Type ℓ} {V : Type κ} ⦃e : Eq K⦄ where
  unfoldable pub get : K → IndexMap K V → Option V
  get k [] = none
  get k ((j, w) ∷ m) = if j == k then some w else get k m

  abbrev pub contains_key : K → IndexMap K V → Bool
  contains_key k m = is_some (get k m)

  unfoldable pub insert : K → V → IndexMap K V → IndexMap K V
  insert k v [] = (k, v) ∷ []
  insert k v ((j, w) ∷ m) = if j == k then (j, v) ∷ m else (j, w) ∷ insert k v m

  push_second : K × V → IndexMap K V → IndexMap K V
  push_second x [] = x ∷ []
  push_second x (l ∷ m) = l ∷ x ∷ m

  -- The last entry is moved to the front.
  move_last : IndexMap K V → IndexMap K V
  unfolding push_second
  move_last [] = []
  move_last (x ∷ m) = push_second x (move_last m)

  unfoldable pub remove : K → IndexMap K V → IndexMap K V
  unfolding move_last
  remove k [] = []
  remove k ((j, w) ∷ m) = if j == k then move_last m else (j, w) ∷ remove k m

  pub get-insert :
      (j k : K) (v : V) (m : IndexMap K V)
      → get j (insert k v m) ≡ (if k == j then some v else get j m)
  unfolding get insert
  get-insert j k v [] = refl
  get-insert j k v ((i, w) ∷ m) = elim (Bool-cases (i == k)) [
    | inl at_key ↦ rw (at_key, ← e.beq_cong i k j at_key) (ground arith)
    | inr other ↦ rw other (ground (arith, e.beq_cong i j k, beq_comm j k, get-insert j k v m))
  ]

  pub get_cong : (j k : K) (m : IndexMap K V) → (j == k) ≡ true → get j m ≡ get k m
  unfolding get
  get_cong j k [] h = refl
  get_cong j k ((i, w) ∷ m) h =
      ground (arith, e.beq_cong j k i, beq_comm j i, beq_comm k i, get_cong j k m h)

  -- No key stands twice.
  abbrev pub IsMap : IndexMap K V → Type κ
  IsMap [] = Unit
  IsMap ((j, w) ∷ m) = (get j m ≡ none) × IsMap m

  pub insert-IsMap : (k : K) (v : V) (m : IndexMap K V) → IsMap m → IsMap (insert k v m)
  unfolding insert get
  insert-IsMap k v [] h = (refl, tt)
  insert-IsMap k v ((j, w) ∷ m) h =
      ground (arith, insert-IsMap k v m h.1, get-insert j k v m, beq_comm j k)

  get-push_second :
      (j k : K) (w : V) (m : IndexMap K V)
      → get k m ≡ none
      → get j (push_second (k, w) m) ≡ get j ((k, w) ∷ m)
  unfolding get push_second
  get-push_second j k w [] h = refl
  get-push_second j k w ((i, u) ∷ m) h = elim (Bool-cases (i == k)) [
    | inl same ↦ cc (rw same at h)
    | inr other ↦ elim (Bool-cases (i == j)) [
      | inl hit ↦ rw hit (ground (arith, e.beq_cong i j k, beq_comm j k))
      | inr miss ↦ rw miss refl
    ]
  ]

  push_second-IsMap :
      (k : K) (w : V) (m : IndexMap K V) → get k m ≡ none → IsMap m → IsMap (push_second (k, w) m)
  unfolding get push_second
  push_second-IsMap k w [] h um = (refl, tt)
  push_second-IsMap k w ((i, u) ∷ m) h um = ground (arith, beq_comm k i)

  get-move_last : (j : K) (m : IndexMap K V) → IsMap m → get j (move_last m) ≡ get j m
  unfolding get move_last
  get-move_last j [] um = refl
  get-move_last j ((i, u) ∷ m) um =
      ground
        (arith, get-push_second j i u (move_last m), get-move_last i m um.1, get-move_last j m um.1)

  move_last-IsMap : (m : IndexMap K V) → IsMap m → IsMap (move_last m)
  unfolding move_last
  move_last-IsMap [] um = tt
  move_last-IsMap ((i, u) ∷ m) um =
      push_second-IsMap i u (move_last m) (get-move_last i m um.1 ∙ um.0) (move_last-IsMap m um.1)

  pub get-remove :
      (j k : K) (m : IndexMap K V)
      → IsMap m
      → get j (remove k m) ≡ (if k == j then none else get j m)
  unfolding get remove
  get-remove j k [] um = ground arith
  get-remove j k ((i, u) ∷ m) um = elim (Bool-cases (i == k)) [
    | inl at_key ↦
        rw (at_key, ← e.beq_cong i k j at_key)
          (ground (arith, get-move_last j m um.1, get_cong i j m))
    | inr other ↦ rw other (ground (arith, e.beq_cong i j k, beq_comm j k, get-remove j k m um.1))
  ]

  pub remove-IsMap : (k : K) (m : IndexMap K V) → IsMap m → IsMap (remove k m)
  unfolding remove
  remove-IsMap k [] um = tt
  remove-IsMap k ((i, u) ∷ m) um = elim (Bool-cases (i == k)) [
    | inl at_key ↦ rw at_key (move_last-IsMap m um.1)
    | inr other ↦
        rw other (ground (arith, get-remove i k m um.1, beq_comm i k, um.0), remove-IsMap k m um.1)
  ]
