-- ===== src/Package/Name/Normal.antt =====
-- The normal form of a name and its parts.
use mathlib.Core.List.{reverse-append, reverse-cons, reverse-reverse, append_assoc}
use elba.Prelude.{
  ℕ, true, false, ◌&&◌, Option, [], ◌∷◌, ◌++◌, reverse, ◌≡◌, refl, ap, sym, ◌∙◌, arith, eqb, all_of,
  subst,
}
use elba.Prelude.Outcome.{ok}
use elba.Prelude.Text.{Text, Lacks, text_eqb, splitn2, splitn2-append}
use elba.Package.Name.{
  Unicode, Name, new, normalize, normalize_char, normalized_group, normalized_name, name_eqb,
  valid_char,
}
use elba.Package.Name.Forms.{IsMade, new-IsNew, slash_invalid, Lacks-append}

normalize_char-slash : (c : ℕ) → eqb c b'/' ≡ false → eqb (normalize_char c) b'/' ≡ false
unfolding normalize_char
normalize_char-slash c h = ground (arith, h)

normalize-Lacks :
    (u : Unicode) (s : Text) → all_of (valid_char u) s ≡ true → Lacks b'/' (normalize s)
normalize-Lacks u [] h = refl
normalize-Lacks u (c ∷ s) h =
    ground (
      arith,
      h,
      normalize_char-slash c (slash_invalid u c (ground (arith, h))),
      normalize-Lacks u s,
    )

reverse-Lacks : (sep : ℕ) (s : Text) → Lacks sep s → Lacks sep (reverse s)
reverse-Lacks sep [] h = refl
reverse-Lacks sep (c ∷ s) h = subst (Lacks sep) (sym (reverse-cons c s)) (
    Lacks-append sep (reverse s) (c ∷ []) (reverse-Lacks sep s (ground (arith, h)))
      (ground (arith, h)))

reverse-joined : (sep : ℕ) (a b : Text) → reverse (a ++ sep ∷ b) ≡ reverse b ++ sep ∷ reverse a
reverse-joined sep a b =
    reverse-append a (sep ∷ b)
    ∙ ap (λ l. l ++ reverse a) (reverse-cons sep b)
    ∙ append_assoc (reverse b) (sep ∷ []) (reverse a)

-- What two texts around a separator are compared by.
text_eqb-joined :
    (sep : ℕ) (a b c d : Text)
    → Lacks sep a
    → Lacks sep c
    → text_eqb (a ++ sep ∷ b) (c ++ sep ∷ d) ≡ (text_eqb a c && text_eqb b d)
unfolding text_eqb
text_eqb-joined sep [] b [] d h k = ground arith
text_eqb-joined sep [] b (y ∷ c) d h k = ground (arith, k)
text_eqb-joined sep (x ∷ a) b [] d h k = ground (arith, h)
text_eqb-joined sep (x ∷ a) b (y ∷ c) d h k = ground (arith, h, k, text_eqb-joined sep a b c d)

-- The normalized group of a name that was made is the normal form of its group.
pub normalized_group-new :
    (u : Unicode) (group name : Text) (m : Name)
    → new u group name ≡ ok m
    → normalized_group m ≡ normalize group
unfolding normalized_group
normalized_group-new u group name m h =
    let made = new-IsNew u group name m h in
    ap (λ s. (splitn2 b'/' s).0) made.normalized
    ∙ ap (λ (p : Text × Option Text). p.0)
        (splitn2-append b'/' (normalize group) (normalize name)
          (normalize-Lacks u group made.group_valid))

pub normalized_name-new :
    (u : Unicode) (group name : Text) (m : Name)
    → new u group name ≡ ok m
    → normalized_name m ≡ normalize name
unfolding normalized_name
normalized_name-new u group name m h =
    let made = new-IsNew u group name m h in
    ap (λ s. reverse ((splitn2 b'/' (reverse s)).0)) made.normalized
    ∙ ap (λ s. reverse ((splitn2 b'/' s).0))
        (reverse-joined b'/' (normalize group) (normalize name))
    ∙ ap (λ (p : Text × Option Text). reverse (p.0))
        (splitn2-append b'/' (reverse (normalize name)) (reverse (normalize group))
          (reverse-Lacks b'/' (normalize name) (normalize-Lacks u name made.name_valid)))
    ∙ reverse-reverse (normalize name)

-- Two names that were made are equal exactly if their normalized groups and their normalized names are:
-- the slash in the normal form is never part of either.
pub name_eqb-normalized :
    (u : Unicode) (a b : Name)
    → IsMade u a
    → IsMade u b
    → name_eqb a b ≡ (
        text_eqb (normalized_group a) (normalized_group b)
        && text_eqb (normalized_name a) (normalized_name b))
name_eqb-normalized u a b (g, n, h) (g', n', h') =
    let made = new-IsNew u g n a h in
    let made' = new-IsNew u g' n' b h' in
    rw
      (
        normalized_group-new u g n a h,
        normalized_group-new u g' n' b h',
        normalized_name-new u g n a h,
        normalized_name-new u g' n' b h',
        made.normalized,
        made'.normalized,
      )
      (text_eqb-joined b'/' (normalize g) (normalize n) (normalize g') (normalize n')
        (normalize-Lacks u g made.group_valid) (normalize-Lacks u g' made'.group_valid))
