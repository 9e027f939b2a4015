-- ===== src/Remote/IndexRes.antt =====
-- `IndexRes` of remote/resolution.rs: the place of an index.
use elba.Prelude.{Eq, Bool, ◌++◌, ◌∷◌, ◌≡◌, refl, if◌then◌else◌}
use elba.Prelude.Outcome.{Result, ok, err, and_ok, or_error, invalid_source_url}
use elba.Prelude.Text.{Text, codes, text_eqb, splitn2}
use elba.Remote.Url.{UrlCrate, UrlLaws}
use elba.Remote.DirectRes.{DirectRes, IsReadable, direct_eqb, direct_eqb_refl, direct_eqb_cong}
use elba.Remote

pub record IndexRes (Url : Type 0) : Type 0 where
  pub res : DirectRes Url

-- `context(Error::InvalidSourceUrl)`
abbrev in_source : {A : Type 0} → Result A → Result A
in_source (ok a) = ok a
in_source (err e) = err invalid_source_url

abbrev pub index_eqb : {Url : Type 0} ⦃e : Eq Url⦄ → IndexRes Url → IndexRes Url → Bool
index_eqb i i' = direct_eqb i.res i'.res

instance abbrev pub index_eq : {Url : Type 0} ⦃e : Eq Url⦄ → Eq (IndexRes Url)
index_eq = record {
  beq = λ i i'. direct_eqb i.res i'.res;
  beq_refl = λ i. direct_eqb_refl i.res;
  beq_cong = λ i i' i''. direct_eqb_cong i.res i'.res i''.res;
}

module _ {Url : Type 0} (crate : UrlCrate Url) where
  abbrev of_text : Text → Result (IndexRes Url)
  of_text url =
      and_ok (in_source (Remote.DirectRes.from_str crate url)) (λ res. ok (record { res = res }))

  -- The `match utype`.
  unfoldable pub of_type : Text → Text → Result (IndexRes Url)
  of_type utype url = if text_eqb utype (codes "index") then of_text url else err invalid_source_url

  unfoldable pub from_str : Text → Result (IndexRes Url)
  unfolding splitn2 of_type
  from_str url =
      let (utype, rest) = splitn2 b'+' url in
      and_ok (or_error invalid_source_url rest) (of_type utype)

  unfoldable pub to_text : IndexRes Url → Text
  to_text i = codes "index" ++ b'+' ∷ Remote.DirectRes.to_text crate i.res

  pub from_str-to_text :
      {IsPlain : Text → Type 0} (laws : UrlLaws crate IsPlain) (i : IndexRes Url)
      → IsReadable crate IsPlain i.res
      → from_str (to_text i) ≡ ok i
  unfolding from_str to_text text_eqb
  from_str-to_text laws i readable =
      rw (Remote.DirectRes.from_str-to_text crate laws i.res readable) refl
