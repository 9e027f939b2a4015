-- ===== src/Samples/Urls.antt =====
-- Two addresses, as an instance of the crate `url`, and the text forms and the order of two versions.
use mathlib.Core.List.{append-nil}
use elba.Prelude.{
  sym, Bool, true, false, Option, none, some, [], ◌∷◌, ◌++◌, ◌≡◌, refl, Eq, ap, ◌∙◌, arith,
  if◌then◌else◌,
}
use elba.Prelude.Text.{Text, codes, text_eqb, text_eqb_refl, text_eqb_cong, splitn2}
use elba.Package.Spec.{Versions}
use elba.Remote.Index.Loaded.{IsOrder}
use elba.Remote.Url.{UrlCrate, UrlLaws}
use elba.Samples.{Ver, v1, v2, is_version}

pub data Site : Type 0 where
  home mirror : Site

pub record Url : Type 0 where
  pub site : Site
  pub fragment : Option Text

abbrev base : Site → Text
base home = codes "https://a.b"
base mirror = codes "http://c"

abbrev suffix : Option Text → Text
suffix none = []
suffix (some f) = b'#' ∷ f

abbrev as_str : Url → Text
as_str u = base u.site ++ suffix u.fragment

abbrev of_parts : Text × Option Text → Option Url
of_parts (s, f) =
    if text_eqb s (base home)
    then some (record { site = home; fragment = f })
    else (if text_eqb s (base mirror) then some (record { site = mirror; fragment = f }) else none)

abbrev scheme_of : Site → Text
scheme_of home = codes "https"
scheme_of mirror = codes "http"

unfoldable pub parse : Text → Option Url
unfolding splitn2 text_eqb
parse s = of_parts (splitn2 b'#' s)

abbrev pub crate : UrlCrate Url
crate = record {
  parse = parse;
  as_str = as_str;
  scheme = λ u. scheme_of u.site;
  fragment = λ u. u.fragment;
  without_fragment = λ u. record u { fragment = none };
}

parse-base :
    (s : Site) (f : Option Text)
    → parse (base s ++ suffix f) ≡ some (record { site = s; fragment = f })
unfolding parse
parse-base home none = refl
parse-base home (some f) = refl
parse-base mirror none = refl
parse-base mirror (some f) = refl

pub parse-as_str : (u : Url) → parse (as_str u) ≡ some u
parse-as_str u = parse-base u.site u.fragment

pub parse-with :
    (u : Url) (f : Text)
    → u.fragment ≡ none
    → parse (as_str u ++ b'#' ∷ f) ≡ some (record { site = u.site; fragment = some f })
parse-with u f bare =
    ap (λ (o : Option Text). parse ((base u.site ++ suffix o) ++ b'#' ∷ f)) bare
    ∙ ap (λ (s : Text). parse (s ++ b'#' ∷ f)) (append-nil (base u.site))
    ∙ parse-base u.site (some f)

pub without_none : (u : Url) → u.fragment ≡ none → record u { fragment = none } ≡ u
without_none u bare =
    ap (λ (o : Option Text). let v : Url = record { site = u.site; fragment = o } in v) (sym bare)

-- No fragment of these addresses is encoded.
abbrev pub IsPlain : Text → Type 0
IsPlain f = Unit

abbrev pub laws : UrlLaws crate IsPlain
laws = record {
  parse-as_str = parse-as_str;
  without_none = without_none;
  with_fragment = λ u f. record { site = u.site; fragment = some f };
  parse-with = λ u f bare plain. parse-with u f bare;
  fragment-with = λ u f bare plain. refl;
  without-with = λ u f bare plain. without_none u bare;
  scheme-with = λ u f bare plain. refl;
}

pub same_text_refl : (u : Url) → text_eqb (as_str u) (as_str u) ≡ true
same_text_refl u = text_eqb_refl (as_str u)

pub same_text_cong :
    (a b c : Url)
    → text_eqb (as_str a) (as_str b) ≡ true
    → text_eqb (as_str a) (as_str c) ≡ text_eqb (as_str b) (as_str c)
same_text_cong a b c h = text_eqb_cong (as_str a) (as_str b) (as_str c) h

instance abbrev pub url_eq : Eq Url
url_eq = record {
  beq = λ a b. text_eqb (as_str a) (as_str b);
  beq_refl = same_text_refl;
  beq_cong = same_text_cong;
}

pub is_version_refl : (x : Ver) → is_version x x ≡ true
is_version_refl v1 = refl
is_version_refl v2 = refl

pub is_version_cong : (a b c : Ver) → is_version a b ≡ true → is_version a c ≡ is_version b c
is_version_cong v1 v1 c h = refl
is_version_cong v1 v2 c h = cc
is_version_cong v2 v1 c h = cc
is_version_cong v2 v2 c h = refl

instance abbrev pub ver_eq : Eq Ver
ver_eq = record { beq = is_version; beq_refl = is_version_refl; beq_cong = is_version_cong }

abbrev pub before : Ver → Ver → Bool
before v1 v2 = true
before _ _ = false

pub before-IsOrder : IsOrder before
before-IsOrder = record { asym = asym; trans = trans }
  where
    asym : (a b : Ver) → before a b ≡ true → before b a ≡ false
    asym v1 v1 h = cc
    asym v1 v2 h = refl
    asym v2 v1 h = cc
    asym v2 v2 h = cc

    trans : (a b c : Ver) → before b a ≡ false → before c b ≡ false → before c a ≡ false
    trans v1 b c h k = ground (arith, h, k)
    trans v2 v1 c h k = cc
    trans v2 v2 v1 h k = cc
    trans v2 v2 v2 h k = refl

abbrev parse_version : Text → Option Ver
parse_version s =
    if text_eqb s (codes "1.0.0")
    then some v1
    else (if text_eqb s (codes "2.0.0") then some v2 else none)

abbrev show_version : Ver → Text
show_version v1 = codes "1.0.0"
show_version v2 = codes "2.0.0"

unfoldable pub versions : Versions Ver
unfolding text_eqb
versions = record { parse = parse_version; show = show_version }
