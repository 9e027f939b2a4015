-- ===== src/Package/Name/Forms.antt =====
-- The text forms of a name: printing and reading back, and the normal form.
use elba.Prelude.{
  ℕ, true, false, List, [], ◌∷◌, ◌++◌, ◌≡◌, ◌≢◌, refl, sym, subst, ◌∙◌, arith, eqb, all_of,
}
use elba.Prelude.Outcome.{ok}
use elba.Prelude.Text.{Text, Lacks, split, split-append, split_two}
use elba.Package.Name.{Unicode, Name, new, from_str, from_parts, normalize, valid_char}

-- What `new` has checked and made.
pub record IsNew (u : Unicode) (group name : Text) (n : Name) : Type 0 where
  pub group_valid : all_of (valid_char u) group ≡ true
  pub name_valid : all_of (valid_char u) name ≡ true
  pub group_some : group ≢ []
  pub name_some : name ≢ []
  pub serialized : n.serialization ≡ group ++ b'/' ∷ name
  pub normalized : n.normalization ≡ normalize group ++ b'/' ∷ normalize name
  pub group_kept : n.group ≡ group
  pub name_kept : n.name ≡ name

pub new-IsNew : (u : Unicode) (g n : Text) (m : Name) → new u g n ≡ ok m → IsNew u g n m
unfolding new
new-IsNew u g n m h = record {
  group_valid = ground (arith, h);
  name_valid = ground (arith, h);
  group_some = λ e. ground (arith, h, e);
  name_some = λ e. ground (arith, h, e);
  serialized = ground (arith, h);
  normalized = ground (arith, h);
  group_kept = ground (arith, h);
  name_kept = ground (arith, h);
}

pub slash_invalid : (u : Unicode) (c : ℕ) → valid_char u c ≡ true → eqb c b'/' ≡ false
slash_invalid u c h = ground (arith, h, u.on_ascii c)

valid-Lacks : (u : Unicode) (s : Text) → all_of (valid_char u) s ≡ true → Lacks b'/' s
valid-Lacks u [] h = refl
valid-Lacks u (c ∷ s) h = ground (arith, h, slash_invalid u c, valid-Lacks u s)

-- A name that was made prints to a text that reads back as the same name.
pub from_str-serialization :
    (u : Unicode) (group name : Text) (n : Name)
    → new u group name ≡ ok n
    → from_str u n.serialization ≡ ok n
unfolding from_str from_parts
from_str-serialization u group name n h =
    let m = new-IsNew u group name n h in
    subst (λ s. from_parts u (split b'/' s) ≡ ok n) (sym m.serialized)
      (rw
        (split-append b'/' group name (valid-Lacks u group m.group_valid)
          (valid-Lacks u name m.name_valid))
        h)

-- The text of a name that was read off the parts of a text.
by_parts :
    (u : Unicode) (s : Text) (n : Name) (ws : List Text)
    → split b'/' s ≡ ws
    → from_parts u ws ≡ ok n
    → n.serialization ≡ s
unfolding from_parts
by_parts u s n [] e h = cc
by_parts u s n (g ∷ []) e h = cc
by_parts u s n (g ∷ n' ∷ []) e h = (new-IsNew u g n' n h).serialized ∙ sym (split_two b'/' s g n' e)
by_parts u s n (g ∷ n' ∷ m ∷ ws) e h = cc

-- A name that was read prints to the text that it was read from, character by character.
pub serialization-from_str :
    (u : Unicode) (s : Text) (n : Name) → from_str u s ≡ ok n → n.serialization ≡ s
unfolding from_str
serialization-from_str u s n h = by_parts u s n (split b'/' s) refl h

-- A name that `Name::new` has made.
abbrev pub IsMade : Unicode → Name → Type 0
IsMade u m = (group : Text) × (name : Text) × (new u group name ≡ ok m)

pub from_str-made : (u : Unicode) (m : Name) → IsMade u m → from_str u m.serialization ≡ ok m
from_str-made u m (group, name, h) = from_str-serialization u group name m h

pub at_invalid : (u : Unicode) (c : ℕ) → valid_char u c ≡ true → eqb c b'@' ≡ false
at_invalid u c h = ground (arith, h, u.on_ascii c)

pub bar_invalid : (u : Unicode) (c : ℕ) → valid_char u c ≡ true → eqb c b'|' ≡ false
bar_invalid u c h = ground (arith, h, u.on_ascii c)

all_valid-Lacks :
    (u : Unicode) (sep : ℕ) (s : Text)
    → ((c : ℕ) → valid_char u c ≡ true → eqb c sep ≡ false)
    → all_of (valid_char u) s ≡ true
    → Lacks sep s
all_valid-Lacks u sep [] inv h = refl
all_valid-Lacks u sep (c ∷ s) inv h = ground (arith, h, inv c, all_valid-Lacks u sep s inv)

pub Lacks-append : (sep : ℕ) (a b : Text) → Lacks sep a → Lacks sep b → Lacks sep (a ++ b)
Lacks-append sep [] b h k = k
Lacks-append sep (c ∷ a) b h k = ground (arith, h, k, Lacks-append sep a b)

-- The text of a name holds no character that is neither allowed in a name nor the slash.
pub serialization-Lacks :
    (u : Unicode) (sep : ℕ) (m : Name)
    → ((c : ℕ) → valid_char u c ≡ true → eqb c sep ≡ false)
    → eqb b'/' sep ≡ false
    → IsMade u m
    → Lacks sep m.serialization
serialization-Lacks u sep m inv slash (group, name, h) =
    let made = new-IsNew u group name m h in
    subst (Lacks sep) (sym made.serialized) (
      Lacks-append sep group (b'/' ∷ name) (all_valid-Lacks u sep group inv made.group_valid)
        (ground (arith, slash, all_valid-Lacks u sep name inv made.name_valid)))
