-- ===== src/Package/Spec/Forms.antt =====
-- The text form of a spec, and what a spec matches.
use mathlib.Core.List.{append-nil}
use elba.Prelude.{ℕ, Option, none, some, ◌++◌, ◌≡◌, refl, ap, ◌∙◌}
use elba.Prelude.Outcome.{ok}
use elba.Prelude.Text.{Text, Lacks, splitn2, splitn2-append, splitn2-Lacks}
use elba.Package.Name.{Unicode}
use elba.Package.Name.Forms.{
  IsMade, from_str-made, serialization-Lacks, Lacks-append, at_invalid, bar_invalid,
}
use elba.Package.Spec.{
  Spec, Versions, from_str, to_text, without_version, read_some, read_version, prefixed,
}
use elba.Remote.Url.{UrlCrate, UrlLaws}
use elba.Remote.Resolution.{Resolution, IsReadableRes}
use elba.Remote

module _ {A : Type 0} (sep : ℕ) (show : A → Text) where
  abbrev shown : Option A → Option Text
  shown none = none
  shown (some a) = some (show a)

  splitn2-prefixed :
      (a : Text) (o : Option A)
      → Lacks sep a
      → splitn2 sep (a ++ prefixed sep show o) ≡ (a, shown o)
  splitn2-prefixed a none h = ap (splitn2 sep) (append-nil a) ∙ splitn2-Lacks sep a h
  splitn2-prefixed a (some x) h = splitn2-append sep a (show x) h

module _ {Url V : Type 0} (crate : UrlCrate Url) (vs : Versions V) (u : Unicode)
    {IsPlain : Text → Type 0} (laws : UrlLaws crate IsPlain) where
  -- What the parts of a spec have to be for its text to be read back.
  pub record IsReadableSpec (spec : Spec Url V) : Type 0 where
    pub made : IsMade u spec.name
    pub resolution_readable :
        (r : Resolution Url) → spec.resolution ≡ some r → IsReadableRes crate IsPlain r
    pub no_bar :
        (r : Resolution Url)
        → spec.resolution ≡ some r
        → Lacks b'|' (Remote.Resolution.to_text crate r)
    pub version_readable : (v : V) → spec.version ≡ some v → vs.parse (vs.show v) ≡ some v

  read_version_back :
      (o : Option V)
      → ((v : V) → o ≡ some v → vs.parse (vs.show v) ≡ some v)
      → read_some (read_version crate vs u) (shown b'|' vs.show o) ≡ ok o
  read_version_back none h = refl
  read_version_back (some v) h = rw (h v refl) refl

  read_resolution_back :
      (o : Option (Resolution Url))
      → ((r : Resolution Url) → o ≡ some r → IsReadableRes crate IsPlain r)
      → read_some
          (Remote.Resolution.from_str crate)
          (shown b'@' (Remote.Resolution.to_text crate) o)
        ≡ ok o
  read_resolution_back none h = refl
  read_resolution_back (some r) h =
      rw (Remote.Resolution.from_str-to_text crate laws r (h r refl)) refl

  prefixed-Lacks :
      (o : Option (Resolution Url))
      → ((r : Resolution Url) → o ≡ some r → Lacks b'|' (Remote.Resolution.to_text crate r))
      → Lacks b'|' (prefixed b'@' (Remote.Resolution.to_text crate) o)
  prefixed-Lacks none h = refl
  prefixed-Lacks (some r) h = h r refl

  -- A spec prints to a text that reads back as the same spec, if its name was made by `Name::new`, its
  -- resolution is of the kind that reading makes and has no bar in its text, and its version reads back.
  pub from_str-spec_text :
      (spec : Spec Url V)
      → IsReadableSpec spec
      → from_str crate vs u (to_text crate vs spec) ≡ ok spec
  unfolding from_str to_text
  from_str-spec_text spec h =
      rw
        (
          splitn2-prefixed b'|' vs.show (without_version crate vs spec) spec.version (
              Lacks-append b'|' spec.name.serialization _
                (serialization-Lacks u b'|' spec.name (bar_invalid u) refl h.made)
                (prefixed-Lacks spec.resolution h.no_bar)),
          read_version_back spec.version h.version_readable,
          splitn2-prefixed b'@' (Remote.Resolution.to_text crate) spec.name.serialization
              spec.resolution (serialization-Lacks u b'@' spec.name (at_invalid u) refl h.made),
          from_str-made u spec.name h.made,
          read_resolution_back spec.resolution h.resolution_readable,
        )
        refl
