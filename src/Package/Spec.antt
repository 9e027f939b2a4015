-- ===== src/Package/Spec.antt =====
-- `Spec` of package/mod.rs: a name with an optional resolution and an optional version.
pub mod Forms
use elba.Prelude.{
  Eq, ◌==◌, ℕ, Bool, true, false, not, ◌&&◌, Option, none, some, ◌++◌, ◌∷◌, [], ◌≡◌, refl,
  if◌then◌else◌, all_of, eqb,
}
use elba.Prelude.Outcome.{Result, ok, err, and_ok, or_error, bad_version}
use elba.Prelude.Text.{Text, Lacks, splitn2, splitn2-append, splitn2-Lacks}
use elba.Package.Name.{Unicode, Name, name_eq}
use elba.Package.Name.Forms.{IsMade, from_str-made, serialization-Lacks, at_invalid, bar_invalid}
use elba.Package.PackageId.{PackageId}
use elba.Package
use elba.Remote.Url.{UrlCrate, UrlLaws}
use elba.Remote.Resolution.{Resolution, IsReadableRes, resolution_eq}
use elba.Remote
use elba.Resolve.Incompat.{Summary}

pub record Spec (Url V : Type 0) : Type 0 where
  pub name : Name
  pub resolution : Option (Resolution Url)
  pub version : Option V

-- The text forms of the crate `semver`.
pub record Versions (V : Type 0) : Type 0 where
  pub parse : Text → Option V
  pub show : V → Text

-- `as_ref` and `!=`, where nothing stands for anything.
abbrev pub agrees_with : {A : Type 0} ⦃e : Eq A⦄ → Option A → A → Bool
agrees_with none a = true
agrees_with (some x) a = x == a

-- Reads what there is to read.
abbrev pub read_some : {A : Type 0} → (Text → Result A) → Option Text → Result (Option A)
read_some read none = ok none
read_some read (some s) = and_ok (read s) (λ a. ok (some a))

-- A separator and the text, where there is something.
abbrev pub prefixed : {A : Type 0} → ℕ → (A → Text) → Option A → Text
prefixed sep show none = []
prefixed sep show (some a) = sep ∷ show a

module _ {Url V : Type 0} ⦃e : Eq Url⦄ ⦃v : Eq V⦄ where
  unfoldable pub matches : Spec Url V → Summary (PackageId Url) V → Bool
  matches spec sum =
      if not (spec.name == sum.id.name)
      then false
      else (if not (agrees_with spec.resolution sum.id.resolution)
          then false
          else (if not (agrees_with spec.version sum.version) then false else true))

module _ {Url V : Type 0} (crate : UrlCrate Url) (vs : Versions V) where
  abbrev pub of_name : Name → Spec Url V
  of_name name = record { name = name; resolution = none; version = none }

  abbrev pub without_version : Spec Url V → Text
  without_version spec =
      spec.name.serialization ++ prefixed b'@' (Remote.Resolution.to_text crate) spec.resolution

  unfoldable pub to_text : Spec Url V → Text
  to_text spec = without_version spec ++ prefixed b'|' vs.show spec.version

  module _ (u : Unicode) where
    abbrev pub read_version : Text → Result V
    read_version s = or_error bad_version (vs.parse s)

    abbrev pub of_parts : Text → Option V → Result (Spec Url V)
    of_parts pre version =
        let (first, rest) = splitn2 b'@' pre in
        and_ok (Package.Name.from_str u first) λ name.
          and_ok (read_some (Remote.Resolution.from_str crate) rest)
            λ resolution. ok (record { name = name; resolution = resolution; version = version })

    -- The version is read first, then the name, then the resolution.
    unfoldable pub from_str : Text → Result (Spec Url V)
    unfolding splitn2
    from_str s =
        let (pre, ver) = splitn2 b'|' s in and_ok (read_some read_version ver) (of_parts pre)
