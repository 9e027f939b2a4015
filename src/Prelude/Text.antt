-- ===== src/Prelude/Text.antt =====
-- Texts as lists of code points, with `split` and `splitn(2, …)` of the standard library.
use Prim.Native.Char.{code}
use Prim.Native.String.{String}
use Prim.Native.Nat.{ℕ}
use mathlib.Core.Path.{◌≡◌, refl, ap, sym, ◌∙◌}
use mathlib.Core.Bool.{Bool, true, false, not, ◌&&◌}
use mathlib.Core.Option.{Option, none, some}
use mathlib.Core.List.{List, [], ◌∷◌, ◌++◌}
use native.Mathlib.Omega.{arith}
use elba.Prelude.Tests.{if◌then◌else◌, eqb}
use elba.Prelude.Lists.{all_of}
use elba.Prelude.Keys.{Eq}

abbrev pub Text : Type 0
Text = List ℕ

abbrev pub codes : String → Text
codes String.[] = []
codes (String.◌∷◌ c s) = code c ∷ codes s

unfoldable pub text_eqb : Text → Text → Bool
text_eqb [] [] = true
text_eqb (x ∷ xs) (y ∷ ys) = eqb x y && text_eqb xs ys
text_eqb _ _ = false

pub text_eqb→eq : (s t : Text) → text_eqb s t ≡ true → s ≡ t
unfolding text_eqb
text_eqb→eq [] [] h = refl
text_eqb→eq [] (y ∷ ys) h = cc
text_eqb→eq (x ∷ xs) [] h = cc
text_eqb→eq (x ∷ xs) (y ∷ ys) h = ground (arith, h, text_eqb→eq xs ys)

pub text_eqb_refl : (s : Text) → text_eqb s s ≡ true
unfolding text_eqb
text_eqb_refl [] = refl
text_eqb_refl (x ∷ xs) = ground (arith, text_eqb_refl xs)

pub text_eqb_cong : (s t u : Text) → text_eqb s t ≡ true → text_eqb s u ≡ text_eqb t u
text_eqb_cong s t u h = ap (λ x. text_eqb x u) (text_eqb→eq s t h)

instance abbrev pub text_eq : Eq Text
text_eq = record { beq = text_eqb; beq_refl = text_eqb_refl; beq_cong = text_eqb_cong }

-- The text holds no such character.
abbrev pub Lacks : ℕ → Text → Type 0
Lacks sep s = all_of (λ c. not (eqb c sep)) s ≡ true

-- The two parts of `splitn(2, sep)`.
unfoldable pub splitn2 : ℕ → Text → Text × Option Text
splitn2 sep [] = ([], none)
splitn2 sep (c ∷ s) =
    let (first, rest) = splitn2 sep s in if eqb c sep then ([], some s) else (c ∷ first, rest)

push_front : ℕ → List Text → List Text
push_front c [] = (c ∷ []) ∷ []
push_front c (w ∷ ws) = (c ∷ w) ∷ ws

unfoldable pub split : ℕ → Text → List Text
unfolding push_front
split sep [] = [] ∷ []
split sep (c ∷ s) = let ws = split sep s in if eqb c sep then [] ∷ ws else push_front c ws

pub splitn2-append : (sep : ℕ) (a b : Text) → Lacks sep a → splitn2 sep (a ++ sep ∷ b) ≡ (a, some b)
unfolding splitn2
splitn2-append sep [] b h = ground arith
splitn2-append sep (c ∷ a) b h = ground (arith, h, splitn2-append sep a b)

pub splitn2-Lacks : (sep : ℕ) (a : Text) → Lacks sep a → splitn2 sep a ≡ (a, none)
unfolding splitn2
splitn2-Lacks sep [] h = refl
splitn2-Lacks sep (c ∷ a) h = ground (arith, h, splitn2-Lacks sep a)

split-Lacks : (sep : ℕ) (a : Text) → Lacks sep a → split sep a ≡ a ∷ []
unfolding split
split-Lacks sep [] h = refl
split-Lacks sep (c ∷ a) h = ground (arith, h, split-Lacks sep a)

pub split-append :
    (sep : ℕ) (a b : Text) → Lacks sep a → Lacks sep b → split sep (a ++ sep ∷ b) ≡ a ∷ b ∷ []
unfolding split
split-append sep [] b h k = ground (arith, split-Lacks sep b k)
split-append sep (c ∷ a) b h k = ground (arith, h, split-append sep a b)

-- Joining again what was split gives the text back.
join : ℕ → List Text → Text
join sep [] = []
join sep (w ∷ []) = w
join sep (w ∷ v ∷ ws) = w ++ sep ∷ join sep (v ∷ ws)

join-split_and : (sep : ℕ) (s : Text) → (join sep (split sep s) ≡ s) × (split sep s ≡ [] → ⊥)
unfolding split join
join-split_and sep [] = (refl, λ e. cc)
join-split_and sep (c ∷ s) = by_parts (split sep s) (join-split_and sep s)
  where
    by_parts :
        (ws : List Text)
        → (join sep ws ≡ s) × (ws ≡ [] → ⊥)
        → (join sep (if eqb c sep then [] ∷ ws else push_front c ws) ≡ c ∷ s)
          × ((if eqb c sep then [] ∷ ws else push_front c ws) ≡ [] → ⊥)
    by_parts [] h = absurd (h.1 refl)
    by_parts (w ∷ []) h = ground (arith, h.0)
    by_parts (w ∷ v ∷ ws) h = ground (arith, h.0)

pub split_two : (sep : ℕ) (s a b : Text) → split sep s ≡ a ∷ b ∷ [] → s ≡ a ++ sep ∷ b
unfolding join
split_two sep s a b h = sym ((join-split_and sep s).0) ∙ ap (join sep) h
