-- ===== src/Package/PackageId.antt =====
-- `PackageId` of package/mod.rs: a name and where the package comes from.
use elba.Prelude.{Eq, ◌==◌, arith, Bool, true, ◌&&◌, ◌++◌, ◌∷◌, ◌≡◌, refl}
use elba.Prelude.Outcome.{Result, ok, and_ok, or_error, bad_package_id}
use elba.Prelude.Text.{Text, splitn2, splitn2-append}
use elba.Package.Name.{Unicode, Name, name_eq}
use elba.Package.Name.Forms.{IsMade, from_str-made, serialization-Lacks, at_invalid}
use elba.Package
use elba.Remote.Url.{UrlCrate, UrlLaws}
use elba.Remote.Resolution.{
  Resolution, IsReadableRes, resolution_eq, resolution_eqb_refl, resolution_eqb_cong,
}
use elba.Remote

pub record PackageId (Url : Type 0) : Type 0 where
  pub name : Name
  pub resolution : Resolution Url

module _ {Url : Type 0} (u : Unicode) (crate : UrlCrate Url) where
  unfoldable pub from_str : Text → Result (PackageId Url)
  unfolding splitn2
  from_str s =
      let (first, rest) = splitn2 b'@' s in
      and_ok (or_error bad_package_id rest) λ url. and_ok (Package.Name.from_str u first) λ name.
        and_ok (Remote.Resolution.from_str crate url)
          λ res. ok (record { name = name; resolution = res })

  unfoldable pub to_text : PackageId Url → Text
  to_text p = p.name.serialization ++ b'@' ∷ Remote.Resolution.to_text crate p.resolution

  -- A package id whose name was made by `Name::new`, and whose resolution is of the kind that reading
  -- makes, prints to a text that reads back as the same package id.
  pub from_str-package_text :
      {IsPlain : Text → Type 0} (laws : UrlLaws crate IsPlain) (p : PackageId Url)
      → IsMade u p.name
      → IsReadableRes crate IsPlain p.resolution
      → from_str (to_text p) ≡ ok p
  unfolding from_str to_text
  from_str-package_text laws p made readable =
      rw
        (
          splitn2-append b'@' p.name.serialization (Remote.Resolution.to_text crate p.resolution)
              (serialization-Lacks u b'@' p.name (at_invalid u) refl made),
          from_str-made u p.name made,
          Remote.Resolution.from_str-to_text crate laws p.resolution readable,
        )
        refl

module _ {Url : Type 0} ⦃e : Eq Url⦄ where
  -- `==`, which is derived.
  unfoldable pub package_eqb : PackageId Url → PackageId Url → Bool
  package_eqb a b = a.name == b.name && a.resolution == b.resolution

  unfoldable pub lowkey_eq : PackageId Url → PackageId Url → Bool
  lowkey_eq a b = a.name == b.name && Remote.Resolution.lowkey_eq a.resolution b.resolution

  pub package_eqb_refl : (a : PackageId Url) → package_eqb a a ≡ true
  unfolding package_eqb
  package_eqb_refl a = ground (arith, name_eq.beq_refl a.name, resolution_eqb_refl a.resolution)

  pub package_eqb_cong :
      (a b c : PackageId Url) → package_eqb a b ≡ true → package_eqb a c ≡ package_eqb b c
  unfolding package_eqb
  package_eqb_cong a b c h = ground (
    arith,
    h,
    name_eq.beq_cong a.name b.name c.name,
    resolution_eqb_cong a.resolution b.resolution c.resolution,
  )

instance abbrev pub package_eq : {Url : Type 0} ⦃e : Eq Url⦄ → Eq (PackageId Url)
package_eq = record { beq = package_eqb; beq_refl = package_eqb_refl; beq_cong = package_eqb_cong }
