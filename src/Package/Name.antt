-- ===== src/Package/Name.antt =====
-- `Name` of package/mod.rs: a group and a name, with the text as given and its normal form.
pub mod Forms
pub mod Normal
use elba.Prelude.{
  ℕ, ◌+◌, Bool, true, false, not, ◌&&◌, ◌||◌, Option, none, some, List, [], ◌∷◌, ◌++◌, map, reverse,
  ◌≡◌, refl, Eq, ap, arith, eqb, leb, all_of, if◌then◌else◌,
}
use elba.Prelude.Outcome.{
  Result, ok, err, bad_group, bad_name, empty_group, empty_name, bad_name_format,
}
use elba.Prelude.Text.{Text, text_eqb, text_eqb_refl, text_eqb→eq, splitn2, split}

-- Letters and digits of ASCII, on which `char::is_alphanumeric` agrees with every other notion.
abbrev pub ascii_alphanumeric : ℕ → Bool
ascii_alphanumeric c =
    (leb b'a' c && leb c b'z') || (leb b'A' c && leb c b'Z') || (leb b'0' c && leb c b'9')

-- `char::is_alphanumeric` is a table of Unicode, which is a parameter; only its ASCII part is used.
pub record Unicode : Type 0 where
  pub is_alphanumeric : ℕ → Bool
  pub on_ascii : (c : ℕ) → leb c 127 ≡ true → is_alphanumeric c ≡ ascii_alphanumeric c

pub record Name : Type 0 where
  pub serialization : Text
  pub normalization : Text
  pub group : Text
  pub name : Text

-- `to_ascii_lowercase`, and then `_` to `-`.
unfoldable pub normalize_char : ℕ → ℕ
normalize_char c = if leb b'A' c && leb c b'Z' then c + 32 else (if eqb c b'_' then b'-' else c)

abbrev pub normalize : Text → Text
normalize = map normalize_char

abbrev is_nil : Text → Bool
is_nil [] = true
is_nil (c ∷ s) = false

abbrev pub valid_char : Unicode → ℕ → Bool
valid_char u c = u.is_alphanumeric c || eqb c b'_' || eqb c b'-'

unfoldable pub new : Unicode → Text → Text → Result Name
new u group name =
    if not (all_of (valid_char u) group)
    then err bad_group
    else (if not (all_of (valid_char u) name)
        then err bad_name
        else (if is_nil (normalize group)
            then err empty_group
            else (if is_nil (normalize name)
                then err empty_name
                else ok (record {
                  serialization = group ++ b'/' ∷ name;
                  normalization = normalize group ++ b'/' ∷ normalize name;
                  group = group;
                  name = name;
                }))))

-- `splitn(2, '/')` and `rsplitn(2, '/')`, the first part of each.
unfoldable pub normalized_group : Name → Text
unfolding splitn2
normalized_group n = (splitn2 b'/' n.normalization).0

unfoldable pub normalized_name : Name → Text
unfolding splitn2
normalized_name n = reverse ((splitn2 b'/' (reverse n.normalization)).0)

unfoldable pub from_parts : Unicode → List Text → Result Name
from_parts u (group ∷ name ∷ []) = new u group name
from_parts u _ = err bad_name_format

unfoldable pub from_str : Unicode → Text → Result Name
unfolding from_parts
from_str u s = from_parts u (split b'/' s)

-- `impl PartialEq for NameInner`: by the normal form only.
abbrev pub name_eqb : Name → Name → Bool
name_eqb a b = text_eqb a.normalization b.normalization

pub name_eqb_cong : (a b c : Name) → name_eqb a b ≡ true → name_eqb a c ≡ name_eqb b c
name_eqb_cong a b c h =
    ap (λ s. text_eqb s c.normalization) (text_eqb→eq a.normalization b.normalization h)

instance abbrev pub name_eq : Eq Name
name_eq = record {
  beq = name_eqb;
  beq_refl = λ a. text_eqb_refl a.normalization;
  beq_cong = name_eqb_cong;
}
