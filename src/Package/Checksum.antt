-- ===== src/Package/Checksum.antt =====
-- `Checksum` of package/mod.rs and its text form.
use elba.Prelude.{Bool, ◌++◌, ◌∷◌, ◌≡◌, refl, if◌then◌else◌}
use elba.Prelude.Outcome.{Result, ok, err, and_ok, or_error, invalid_source_url}
use elba.Prelude.Text.{Text, codes, text_eqb, splitn2}

pub data ChecksumFmt : Type 0 where
  sha256 : ChecksumFmt

pub record Checksum : Type 0 where
  pub fmt : ChecksumFmt
  pub hash : Text

unfoldable pub fmt_from_str : Text → Result ChecksumFmt
fmt_from_str s = if text_eqb s (codes "sha256") then ok sha256 else err invalid_source_url

unfoldable pub fmt_to_text : ChecksumFmt → Text
fmt_to_text sha256 = codes "sha256"

unfoldable pub from_str : Text → Result Checksum
unfolding splitn2 fmt_from_str
from_str s =
    let (fmt, rest) = splitn2 b'=' s in
    and_ok (or_error invalid_source_url rest)
      λ hash. and_ok (fmt_from_str fmt) λ format. ok (record { fmt = format; hash = hash })

unfoldable pub to_text : Checksum → Text
unfolding fmt_to_text
to_text c = fmt_to_text c.fmt ++ b'=' ∷ c.hash

-- A checksum prints to a text that reads back as the same checksum.
pub from_str-to_text : (c : Checksum) → from_str (to_text c) ≡ ok c
unfolding from_str to_text text_eqb
from_str-to_text c = by_format c.fmt
  where
    by_format :
        (f : ChecksumFmt) → from_str (to_text (record c { fmt = f })) ≡ ok (record c { fmt = f })
    by_format sha256 = refl

abbrev pub checksum_eqb : Checksum → Checksum → Bool
checksum_eqb a b = text_eqb a.hash b.hash
