-- ===== src/Build/Target/Bytes.antt =====
-- The bytes of a target, which are hashed.
use elba.Prelude.{ℕ, ◌+◌, ◌*◌, sym, ◌∙◌, ◌<◌, List, [], ◌∷◌, ◌≡◌, refl, arith, ap}
use elba.Build.Target.{Target, lib, bin, test, doc, as_bytes, word_bytes}

-- The index of a target fits a `u32`.
abbrev pub IsSmall : Target → Type 0
IsSmall (bin ix) = ix < 4294967296
IsSmall (test ix) = ix < 4294967296
IsSmall _ = Unit

-- A number of four bytes is the sum of its bytes.
abbrev value : List ℕ → ℕ
value (tag ∷ a ∷ b ∷ c ∷ d ∷ []) = a * 16777216 + b * 65536 + c * 256 + d
value _ = 0

value-word_bytes : (tag x : ℕ) → x < 4294967296 → value (word_bytes tag x) ≡ x
value-word_bytes tag x h = omega arith

word_bytes-inj :
    (tag x y : ℕ) → x < 4294967296 → y < 4294967296 → word_bytes tag x ≡ word_bytes tag y → x ≡ y
word_bytes-inj tag x y h k e =
    sym (value-word_bytes tag x h) ∙ ap value e ∙ value-word_bytes tag y k

-- Two targets whose indices fit a `u32` have the same bytes only if they are the same target.
pub as_bytes-inj : (a b : Target) → IsSmall a → IsSmall b → as_bytes a ≡ as_bytes b → a ≡ b
unfolding as_bytes
as_bytes-inj (lib x) (lib y) h k e = ground (arith, e)
as_bytes-inj (lib x) (bin y) h k e = cc
as_bytes-inj (lib x) (test y) h k e = cc
as_bytes-inj (lib x) doc h k e = cc
as_bytes-inj (bin x) (lib y) h k e = cc
as_bytes-inj (bin x) (bin y) h k e = ap bin (word_bytes-inj 2 x y h k e)
as_bytes-inj (bin x) (test y) h k e = cc
as_bytes-inj (bin x) doc h k e = cc
as_bytes-inj (test x) (lib y) h k e = cc
as_bytes-inj (test x) (bin y) h k e = cc
as_bytes-inj (test x) (test y) h k e = ap test (word_bytes-inj 3 x y h k e)
as_bytes-inj (test x) doc h k e = cc
as_bytes-inj doc (lib y) h k e = cc
as_bytes-inj doc (bin y) h k e = cc
as_bytes-inj doc (test y) h k e = cc
as_bytes-inj doc doc h k e = refl
