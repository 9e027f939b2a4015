-- ===== src/Build/Target.antt =====
-- build/mod.rs: the targets of a package, in the order in which they are built.
pub mod Order
pub mod Bytes
use Prim.Native.Nat.{◌/◌}
use elba.Prelude.{
  ℕ, suc, ◌+◌, ◌*◌, ◌%◌, ◌^◌, Bool, true, false, not, ◌&&◌, ◌||◌, Option, none, some, List, [], ◌∷◌,
  ltb, eqb, any_of, if◌then◌else◌,
}

pub data Target : Type 0 where
  lib : (codegen : Bool) → Target
  bin : (ix : ℕ) → Target
  test : (ix : ℕ) → Target
  doc : Target

-- The order that is derived: by the constructor, and then by what it holds.
abbrev rank : Target → ℕ
rank (lib codegen) = 0
rank (bin ix) = 1
rank (test ix) = 2
rank doc = 3

abbrev bit : Bool → ℕ
bit false = 0
bit true = 1

abbrev held : Target → ℕ
held (lib codegen) = bit codegen
held (bin ix) = ix
held (test ix) = ix
held doc = 0

abbrev pub before : Target → Target → Bool
before a b = ltb (rank a) (rank b) || (eqb (rank a) (rank b) && ltb (held a) (held b))

unfoldable pub insert_target : Target → List Target → List Target
insert_target t [] = t ∷ []
insert_target t (x ∷ xs) =
    let rest = insert_target t xs in if before x t then x ∷ rest else t ∷ x ∷ xs

unfoldable pub sort_targets : List Target → List Target
unfolding insert_target
sort_targets [] = []
sort_targets (t ∷ ts) = insert_target t (sort_targets ts)

abbrev snoc : List Target → Target → List Target
snoc [] t = t ∷ []
snoc (x ∷ xs) t = x ∷ snoc xs t

-- The loop of `Targets::new`.
unfoldable pub collect_targets : List Target → Bool → List Target → List Target
collect_targets [] seen_lib res = res
collect_targets (lib codegen ∷ ts) seen_lib res = elim seen_lib [
  | true ↦ collect_targets ts true res
  | false ↦ collect_targets ts true (snoc res (lib codegen))
]
collect_targets (bin ix ∷ ts) seen_lib res = collect_targets ts seen_lib (snoc res (bin ix))
collect_targets (test ix ∷ ts) seen_lib res = collect_targets ts seen_lib (snoc res (test ix))
collect_targets (doc ∷ ts) seen_lib res = elim seen_lib [
  | true ↦ collect_targets ts true (snoc res doc)
  | false ↦ collect_targets ts true (snoc (lib false ∷ res) doc)
]

-- `Targets::new`
unfoldable pub new_targets : List Target → List Target
unfolding sort_targets collect_targets
new_targets ts = collect_targets (sort_targets ts) false []

abbrev pub is_lib : Target → Bool
is_lib (lib codegen) = true
is_lib _ = false

abbrev pub is_doc : Target → Bool
is_doc doc = true
is_doc _ = false

abbrev pub has_lib : List Target → Bool
has_lib [] = false
has_lib (t ∷ ts) = is_lib t

abbrev pub is_codegen_target : Target → Bool
is_codegen_target (bin ix) = true
is_codegen_target (test ix) = true
is_codegen_target _ = false

abbrev pub is_codegen : List Target → Bool
is_codegen ts = any_of is_codegen_target ts

-- The four bytes of a `u32`, of which the index is cut down to.
abbrev pub word_bytes : ℕ → ℕ → List ℕ
word_bytes tag ix =
    let x = ix % 4294967296 in
    tag ∷ (x / 16777216) % 256 ∷ (x / 65536) % 256 ∷ (x / 256) % 256 ∷ (x % 256) ∷ []

unfoldable pub as_bytes : Target → List ℕ
as_bytes (lib x) = 0 ∷ 0 ∷ 0 ∷ 0 ∷ bit x ∷ []
as_bytes doc = 1 ∷ 0 ∷ 0 ∷ 0 ∷ 0 ∷ []
as_bytes (bin x) = word_bytes 2 x
as_bytes (test x) = word_bytes 3 x
