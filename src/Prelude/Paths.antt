-- ===== src/Prelude/Paths.antt =====
-- `==` of `std::path::Path` on Unix: two paths are equal if their components are.
use mathlib.Core.Path.{◌≡◌, refl, ap}
use mathlib.Core.Bool.{Bool, true, false, not, ◌&&◌, ◌||◌}
use mathlib.Core.List.{List, [], ◌∷◌, ◌++◌}
use native.Mathlib.Omega.{arith}
use elba.Prelude.Tests.{if◌then◌else◌, eqb}
use elba.Prelude.Lists.{keep}
use elba.Prelude.Text.{Text, codes, split, text_eqb, text_eqb_refl, text_eqb→eq}

-- The root of an absolute path, and a `.` that a path begins with.
abbrev lead : Text → List Text → List Text
lead (c ∷ p) (w ∷ ws) =
    if eqb c b'/' then codes "/" ∷ [] else (if text_eqb w (codes ".") then w ∷ [] else [])
lead p ws = []

-- Repeated separators, one at the end, and a `.` elsewhere do not count.
abbrev is_normal : Text → Bool
is_normal w = not (text_eqb w [] || text_eqb w (codes "."))

unfoldable pub components : Text → List Text
unfolding split text_eqb
components p = lead p (split b'/' p) ++ keep is_normal (split b'/' p)

unfoldable pub texts_eqb : List Text → List Text → Bool
texts_eqb [] [] = true
texts_eqb (s ∷ ss) (t ∷ ts) = text_eqb s t && texts_eqb ss ts
texts_eqb _ _ = false

texts_eqb→eq : (ss ts : List Text) → texts_eqb ss ts ≡ true → ss ≡ ts
unfolding texts_eqb
texts_eqb→eq [] [] h = refl
texts_eqb→eq [] (t ∷ ts) h = cc
texts_eqb→eq (s ∷ ss) [] h = cc
texts_eqb→eq (s ∷ ss) (t ∷ ts) h = ground (arith, h, text_eqb→eq s t, texts_eqb→eq ss ts)

texts_eqb_refl : (ss : List Text) → texts_eqb ss ss ≡ true
unfolding texts_eqb
texts_eqb_refl [] = refl
texts_eqb_refl (s ∷ ss) = ground (arith, text_eqb_refl s, texts_eqb_refl ss)

unfoldable pub path_eqb : Text → Text → Bool
unfolding components texts_eqb
path_eqb p q = texts_eqb (components p) (components q)

pub path_eqb_refl : (p : Text) → path_eqb p p ≡ true
unfolding path_eqb
path_eqb_refl p = texts_eqb_refl (components p)

pub path_eqb_cong : (p q r : Text) → path_eqb p q ≡ true → path_eqb p r ≡ path_eqb q r
unfolding path_eqb
path_eqb_cong p q r h =
    ap (λ x. texts_eqb x (components r)) (texts_eqb→eq (components p) (components q) h)
