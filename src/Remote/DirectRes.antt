-- ===== src/Remote/DirectRes.antt =====
-- `DirectRes` of remote/resolution.rs: a git repository, a directory or an archive. A path is the
-- text that it is made from and displayed as; `==` compares the components of paths.
use mathlib.Core.List.{append-nil}
use elba.Prelude.{
  Eq, ◌==◌, arith, Bool, true, false, ◌&&◌, ◌||◌, Option, none, some, ◌++◌, ◌∷◌, [], ◌≡◌, refl,
  if◌then◌else◌,
}
use elba.Prelude.Outcome.{Result, ok, err, and_ok, or_error, invalid_source_url}
use elba.Prelude.Text.{Text, codes, text_eqb, text_eqb_refl, text_eqb_cong, splitn2}
use elba.Prelude.Paths.{path_eqb, path_eqb_refl, path_eqb_cong}
use elba.Package
use elba.Package.Checksum.{Checksum, checksum_eqb}
use elba.Remote.Url.{UrlCrate, UrlLaws}

pub data DirectRes (Url : Type 0) : Type 0 where
  git : (repo : Url) (tag : Text) → DirectRes Url
  dir : (path : Text) → DirectRes Url
  tar : (url : Url) (cksum : Option Checksum) → DirectRes Url

abbrev or_default : Text → Option Text → Text
or_default d none = d
or_default d (some t) = t

-- `from_str(x).ok()`
abbrev fragment_checksum : Option Text → Option Checksum
fragment_checksum none = none
fragment_checksum (some x) = elim (Package.Checksum.from_str x) [ ok c ↦ some c | err e ↦ none ]

fragment_checked : {c : Checksum} → fragment_checksum (some (Package.Checksum.to_text c)) ≡ some c
fragment_checked {c} = rw (Package.Checksum.from_str-to_text c, fragment_checksum) refl

abbrev cksum_text : Option Checksum → Text
cksum_text none = []
cksum_text (some c) = b'#' ∷ Package.Checksum.to_text c

module _ {Url : Type 0} where
  unfoldable pub is_tar : DirectRes Url → Bool
  is_tar (tar url cksum) = true
  is_tar _ = false

  unfoldable pub is_git : DirectRes Url → Bool
  is_git (git repo tag) = true
  is_git _ = false

  unfoldable pub is_dir : DirectRes Url → Bool
  is_dir (dir path) = true
  is_dir _ = false

unfoldable pub cksum_eqb : Option Checksum → Option Checksum → Bool
cksum_eqb none none = true
cksum_eqb (some c) (some c') = checksum_eqb c c'
cksum_eqb _ _ = false

cksum_eqb_refl : (c : Option Checksum) → cksum_eqb c c ≡ true
unfolding cksum_eqb
cksum_eqb_refl none = refl
cksum_eqb_refl (some c) = text_eqb_refl c.hash

cksum_eqb_cong : (a b c : Option Checksum) → cksum_eqb a b ≡ true → cksum_eqb a c ≡ cksum_eqb b c
unfolding cksum_eqb
cksum_eqb_cong none none c h = refl
cksum_eqb_cong none (some b) c h = cc
cksum_eqb_cong (some a) none c h = cc
cksum_eqb_cong (some a) (some b) none h = refl
cksum_eqb_cong (some a) (some b) (some c) h = text_eqb_cong a.hash b.hash c.hash h

module _ {Url : Type 0} ⦃e : Eq Url⦄ where
  -- `==`, which is derived.
  unfoldable pub direct_eqb : DirectRes Url → DirectRes Url → Bool
  unfolding cksum_eqb path_eqb
  direct_eqb (git r t) (git r' t') = r == r' && text_eqb t t'
  direct_eqb (dir p) (dir p') = path_eqb p p'
  direct_eqb (tar u c) (tar u' c') = u == u' && cksum_eqb c c'
  direct_eqb _ _ = false

  -- Two git repositories are the same whatever their tags.
  unfoldable pub lowkey_eq : DirectRes Url → DirectRes Url → Bool
  unfolding direct_eqb
  lowkey_eq (git r t) (git r' t') = r == r'
  lowkey_eq d d' = direct_eqb d d'

  pub direct_eqb_refl : (d : DirectRes Url) → direct_eqb d d ≡ true
  unfolding direct_eqb
  direct_eqb_refl (git r t) = ground (arith, e.beq_refl r, text_eqb_refl t)
  direct_eqb_refl (dir p) = path_eqb_refl p
  direct_eqb_refl (tar u c) = ground (arith, e.beq_refl u, cksum_eqb_refl c)

  pub direct_eqb_cong :
      (a b c : DirectRes Url) → direct_eqb a b ≡ true → direct_eqb a c ≡ direct_eqb b c
  unfolding direct_eqb
  direct_eqb_cong (git r1 t1) (git r2 t2) (git r3 t3) h =
      ground (arith, h, e.beq_cong r1 r2 r3, text_eqb_cong t1 t2 t3)
  direct_eqb_cong (git r1 t1) (git r2 t2) (dir p3) h = refl
  direct_eqb_cong (git r1 t1) (git r2 t2) (tar u3 c3) h = refl
  direct_eqb_cong (git r1 t1) (dir p2) d h = cc
  direct_eqb_cong (git r1 t1) (tar u2 c2) d h = cc
  direct_eqb_cong (dir p1) (git r2 t2) d h = cc
  direct_eqb_cong (dir p1) (dir p2) (git r3 t3) h = refl
  direct_eqb_cong (dir p1) (dir p2) (dir p3) h = path_eqb_cong p1 p2 p3 h
  direct_eqb_cong (dir p1) (dir p2) (tar u3 c3) h = refl
  direct_eqb_cong (dir p1) (tar u2 c2) d h = cc
  direct_eqb_cong (tar u1 c1) (git r2 t2) d h = cc
  direct_eqb_cong (tar u1 c1) (dir p2) d h = cc
  direct_eqb_cong (tar u1 c1) (tar u2 c2) (git r3 t3) h = refl
  direct_eqb_cong (tar u1 c1) (tar u2 c2) (dir p3) h = refl
  direct_eqb_cong (tar u1 c1) (tar u2 c2) (tar u3 c3) h =
      ground (arith, h, e.beq_cong u1 u2 u3, cksum_eqb_cong c1 c2 c3)

instance abbrev pub direct_eq : {Url : Type 0} ⦃e : Eq Url⦄ → Eq (DirectRes Url)
direct_eq = record { beq = direct_eqb; beq_refl = direct_eqb_refl; beq_cong = direct_eqb_cong }

module _ {Url : Type 0} (crate : UrlCrate Url) where
  abbrev is_archive_scheme : Text → Bool
  is_archive_scheme s =
      text_eqb s (codes "http") || text_eqb s (codes "https") || text_eqb s (codes "file")

  abbrev of_git : Url → Result (DirectRes Url)
  of_git url =
      ok (git (crate.without_fragment url) (or_default (codes "master") (crate.fragment url)))

  abbrev of_tar : Url → Result (DirectRes Url)
  of_tar url =
      if is_archive_scheme (crate.scheme url)
      then ok (tar (crate.without_fragment url) (fragment_checksum (crate.fragment url)))
      else err invalid_source_url

  -- The `match utype`.
  unfoldable pub of_type : Text → Text → Result (DirectRes Url)
  of_type utype rest =
      if text_eqb utype (codes "git")
      then and_ok (or_error invalid_source_url (crate.parse rest)) of_git
      else (if text_eqb utype (codes "dir")
          then ok (dir rest)
          else (if text_eqb utype (codes "tar")
              then and_ok (or_error invalid_source_url (crate.parse rest)) of_tar
              else err invalid_source_url))

  unfoldable pub from_str : Text → Result (DirectRes Url)
  unfolding splitn2 of_type
  from_str url =
      let (utype, rest) = splitn2 b'+' url in
      and_ok (or_error invalid_source_url rest) (of_type utype)

  unfoldable pub to_text : DirectRes Url → Text
  to_text (git repo tag) = codes "git" ++ b'+' ∷ (crate.as_str repo ++ b'#' ∷ tag)
  to_text (dir path) = codes "dir" ++ b'+' ∷ path
  to_text (tar url cksum) = codes "tar" ++ b'+' ∷ (crate.as_str url ++ cksum_text cksum)

  -- The resolutions that reading makes: no fragment is left in the url, and the scheme of an archive is
  -- allowed. What is printed as a fragment needs no encoding.
  pub data IsReadable (IsPlain : Text → Type 0) : DirectRes Url → Type 0 where
    git_readable :
        {repo : Url} {tag : Text}
        → crate.fragment repo ≡ none
        → IsPlain tag
        → IsReadable IsPlain (git repo tag)
    dir_readable : {path : Text} → IsReadable IsPlain (dir path)
    tar_readable :
        {url : Url}
        → crate.fragment url ≡ none
        → is_archive_scheme (crate.scheme url) ≡ true
        → IsReadable IsPlain (tar url none)
    checked_readable :
        {url : Url} {c : Checksum}
        → crate.fragment url ≡ none
        → is_archive_scheme (crate.scheme url) ≡ true
        → IsPlain (Package.Checksum.to_text c)
        → IsReadable IsPlain (tar url (some c))

  -- A resolution of the kind that reading makes prints to a text that reads back as the same.
  pub from_str-to_text :
      {IsPlain : Text → Type 0} (laws : UrlLaws crate IsPlain) (d : DirectRes Url)
      → IsReadable IsPlain d
      → from_str (to_text d) ≡ ok d
  unfolding from_str to_text text_eqb
  from_str-to_text laws d (git_readable bare plain) =
      rw
        (
          laws.parse-with _ _ bare plain,
          laws.without-with _ _ bare plain,
          laws.fragment-with _ _ bare plain,
        )
        refl
  from_str-to_text laws d dir_readable = refl
  from_str-to_text laws d (tar_readable bare scheme) =
      rw (append-nil (crate.as_str _), laws.parse-as_str _, scheme, laws.without_none _ bare, bare)
        refl
  from_str-to_text laws d (checked_readable bare scheme plain) =
      rw
        (
          laws.parse-with _ _ bare plain,
          laws.scheme-with _ _ bare plain,
          scheme,
          laws.without-with _ _ bare plain,
          laws.fragment-with _ _ bare plain,
          fragment_checked,
        )
        refl
