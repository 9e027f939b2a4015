-- ===== src/Remote/Resolution.antt =====
-- `Resolution` of remote/resolution.rs: a direct resolution or one through an index.
use elba.Prelude.{Eq, ◌==◌, Bool, true, false, Option, none, some, ◌≡◌, refl}
use elba.Prelude.Outcome.{Result, ok, err, and_ok, invalid_source_url}
use elba.Prelude.Text.{Text, text_eqb}
use elba.Remote.Url.{UrlCrate, UrlLaws}
use elba.Remote.DirectRes.{
  DirectRes, direct_eq, IsReadable, direct_eqb_refl, direct_eqb_cong, is_tar, is_git, is_dir,
}
use elba.Remote.IndexRes.{IndexRes, index_eq}
use elba.Remote

pub data Resolution (Url : Type 0) : Type 0 where
  direct_res : DirectRes Url → Resolution Url
  index_res : IndexRes Url → Resolution Url

module _ {Url : Type 0} where
  unfoldable pub direct : Resolution Url → Option (DirectRes Url)
  direct (direct_res d) = some d
  direct (index_res i) = none

module _ {Url : Type 0} ⦃e : Eq Url⦄ where
  -- `==`, which is derived.
  unfoldable pub resolution_eqb : Resolution Url → Resolution Url → Bool
  resolution_eqb (direct_res d) (direct_res d') = d == d'
  resolution_eqb (index_res i) (index_res i') = i == i'
  resolution_eqb _ _ = false

  unfoldable pub lowkey_eq : Resolution Url → Resolution Url → Bool
  lowkey_eq (direct_res d) (direct_res d') = Remote.DirectRes.lowkey_eq d d'
  lowkey_eq (index_res i) (index_res i') = i == i'
  lowkey_eq _ _ = false

  pub resolution_eqb_refl : (r : Resolution Url) → resolution_eqb r r ≡ true
  unfolding resolution_eqb
  resolution_eqb_refl (direct_res d) = direct_eqb_refl d
  resolution_eqb_refl (index_res i) = direct_eqb_refl i.res

  pub resolution_eqb_cong :
      (a b c : Resolution Url) → resolution_eqb a b ≡ true → resolution_eqb a c ≡ resolution_eqb b c
  unfolding resolution_eqb
  resolution_eqb_cong (direct_res a) (direct_res b) (direct_res c) h = direct_eqb_cong a b c h
  resolution_eqb_cong (direct_res a) (direct_res b) (index_res c) h = refl
  resolution_eqb_cong (direct_res a) (index_res b) c h = cc
  resolution_eqb_cong (index_res a) (direct_res b) c h = cc
  resolution_eqb_cong (index_res a) (index_res b) (direct_res c) h = refl
  resolution_eqb_cong (index_res a) (index_res b) (index_res c) h =
      direct_eqb_cong a.res b.res c.res h

instance abbrev pub resolution_eq : {Url : Type 0} ⦃e : Eq Url⦄ → Eq (Resolution Url)
resolution_eq = record {
  beq = resolution_eqb;
  beq_refl = resolution_eqb_refl;
  beq_cong = resolution_eqb_cong;
}

module _ {Url : Type 0} (crate : UrlCrate Url) where
  -- The direct forms are tried first.
  unfoldable pub from_str : Text → Result (Resolution Url)
  from_str s = elim (Remote.DirectRes.from_str crate s) [
    | ok d ↦ ok (direct_res d)
    | err e ↦ and_ok (Remote.IndexRes.from_str crate s) (λ i. ok (index_res i))
  ]

  unfoldable pub to_text : Resolution Url → Text
  to_text (direct_res d) = Remote.DirectRes.to_text crate d
  to_text (index_res i) = Remote.IndexRes.to_text crate i

  -- The resolutions of which `IsReadable` holds within.
  abbrev pub IsReadableRes : (Text → Type 0) → Resolution Url → Type 0
  IsReadableRes IsPlain (direct_res d) = IsReadable crate IsPlain d
  IsReadableRes IsPlain (index_res i) = IsReadable crate IsPlain i.res

  -- No text of an index is read as that of a direct resolution.
  index_not_direct :
      (i : IndexRes Url)
      → Remote.DirectRes.from_str crate (Remote.IndexRes.to_text crate i) ≡ err invalid_source_url
  unfolding Remote.DirectRes.from_str Remote.IndexRes.to_text text_eqb
  index_not_direct i = refl

  -- A resolution of the kind that reading makes prints to a text that reads back as the same, whether
  -- it is direct or through an index.
  pub from_str-to_text :
      {IsPlain : Text → Type 0} (laws : UrlLaws crate IsPlain) (r : Resolution Url)
      → IsReadableRes IsPlain r
      → from_str (to_text r) ≡ ok r
  unfolding from_str to_text
  from_str-to_text laws (direct_res d) readable =
      rw (Remote.DirectRes.from_str-to_text crate laws d readable, from_str) refl
  from_str-to_text laws (index_res i) readable =
      rw (index_not_direct i, Remote.IndexRes.from_str-to_text crate laws i readable, from_str) refl
