-- ===== src/Tests/Names.antt =====
-- Instances of the theorems on names.
use elba.Prelude.{[], ◌∷◌, ◌≡◌, refl}
use elba.Prelude.Outcome.{ok}
use elba.Package.Name.{Unicode, Name, new, from_str, normalize_char, ascii_alphanumeric}
use elba.Prelude.Text.{split}
use elba.Package.Name.Forms.{from_str-serialization, serialization-from_str}

abbrev ascii : Unicode
ascii = record { is_alphanumeric = ascii_alphanumeric; on_ascii = λ c h. refl }

-- `A_b/c`
abbrev lib : Name
lib = record {
  serialization = b'A' ∷ b'_' ∷ b'b' ∷ b'/' ∷ b'c' ∷ [];
  normalization = b'a' ∷ b'-' ∷ b'b' ∷ b'/' ∷ b'c' ∷ [];
  group = b'A' ∷ b'_' ∷ b'b' ∷ [];
  name = b'c' ∷ [];
}

lib_made : new ascii lib.group lib.name ≡ ok lib
unfolding new normalize_char
lib_made = refl

lib_read : from_str ascii lib.serialization ≡ ok lib
unfolding from_str new split normalize_char
lib_read = refl

from_str-serialization_example : from_str ascii lib.serialization ≡ ok lib
from_str-serialization_example = from_str-serialization ascii lib.group lib.name lib lib_made

serialization-from_str_example : lib.serialization ≡ lib.serialization
serialization-from_str_example = serialization-from_str ascii lib.serialization lib lib_read
