-- ===== src/Remote/Url.antt =====
-- What elba calls of the crate `url`, as a parameter.
use elba.Prelude.{Option, none, some, ◌++◌, ◌∷◌, ◌≡◌}
use elba.Prelude.Text.{Text}

pub record UrlCrate (Url : Type 0) : Type 0 where
  pub parse : Text → Option Url
  pub as_str : Url → Text
  pub scheme : Url → Text
  pub fragment : Url → Option Text
  -- `set_fragment(None)`
  pub without_fragment : Url → Url

-- What the crate documents of a url and its text: the text of a url is parsed as that url, and a
-- fragment whose characters need no encoding is added, read and removed.
pub record UrlLaws {Url : Type 0} (crate : UrlCrate Url) (IsPlain : Text → Type 0) : Type 0 where
  pub parse-as_str : (u : Url) → crate.parse (crate.as_str u) ≡ some u
  pub without_none : (u : Url) → crate.fragment u ≡ none → crate.without_fragment u ≡ u
  pub with_fragment : Url → Text → Url
  pub parse-with :
      (u : Url) (f : Text)
      → crate.fragment u ≡ none
      → IsPlain f
      → crate.parse (crate.as_str u ++ b'#' ∷ f) ≡ some (with_fragment u f)
  pub fragment-with :
      (u : Url) (f : Text)
      → crate.fragment u ≡ none
      → IsPlain f
      → crate.fragment (with_fragment u f) ≡ some f
  pub without-with :
      (u : Url) (f : Text)
      → crate.fragment u ≡ none
      → IsPlain f
      → crate.without_fragment (with_fragment u f) ≡ u
  pub scheme-with :
      (u : Url) (f : Text)
      → crate.fragment u ≡ none
      → IsPlain f
      → crate.scheme (with_fragment u f) ≡ crate.scheme u
