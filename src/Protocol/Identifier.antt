-- ===== src/Protocol/Identifier.antt =====
-- requireSafeIdentifier of shared/measurement-protocol/src/index.ts, over the code points of a text.
use Prim.Native.Char.{code}
use Prim.Native.String.{String}
use midnight_buildathons_bac.Prelude.{
  ℕ, zero, suc, Bool, true, false, ◌&&◌, ◌||◌, leb, ◌==◌, if◌then◌else◌,
}
use midnight_buildathons_bac.Prelude.Results.{Result, ok, ◌>>◌, require}

-- What `trim` takes off: the white space and the line ends of the language.
unfoldable pub is_space : ℕ → Bool
is_space c =
    (leb 9 c && leb c 13)
    || c == 32
    || c == 160
    || c == 0x1680
    || (leb 0x2000 c && leb c 0x200a)
    || c == 0x2028
    || c == 0x2029
    || c == 0x202f
    || c == 0x205f
    || c == 0x3000
    || c == 0xfeff

unfoldable pub trim_start : String → String
unfolding is_space
trim_start String.[] = String.[]
trim_start (String.◌∷◌ c s) = if is_space (code c) then trim_start s else String.◌∷◌ c s

abbrev is_empty : String → Bool
is_empty String.[] = true
is_empty (String.◌∷◌ c s) = false

unfoldable pub trim_end : String → String
unfolding is_space
trim_end String.[] = String.[]
trim_end (String.◌∷◌ c s) =
    let rest = trim_end s in
    if is_space (code c) && is_empty rest then String.[] else String.◌∷◌ c rest

unfoldable pub trim : String → String
unfolding trim_start trim_end
trim s = trim_end (trim_start s)

-- [A-Za-z0-9]
unfoldable pub is_alphanumeric : ℕ → Bool
is_alphanumeric c =
    (leb b'A' c && leb c b'Z') || (leb b'a' c && leb c b'z') || (leb b'0' c && leb c b'9')

-- [A-Za-z0-9._:-]
unfoldable pub is_identifier_code : ℕ → Bool
unfolding is_alphanumeric
is_identifier_code c = is_alphanumeric c || c == b'.' || c == b'_' || c == b':' || c == b'-'

-- At most `most` characters, each in the class.
unfoldable pub all_identifier_codes : ℕ → String → Bool
unfolding is_identifier_code
all_identifier_codes most String.[] = true
all_identifier_codes zero (String.◌∷◌ c s) = false
all_identifier_codes (suc most) (String.◌∷◌ c s) =
    is_identifier_code (code c) && all_identifier_codes most s

-- /^[A-Za-z0-9][A-Za-z0-9._:-]{0,159}$/u
unfoldable pub matches_identifier : String → Bool
unfolding all_identifier_codes is_alphanumeric
matches_identifier String.[] = false
matches_identifier (String.◌∷◌ c s) = is_alphanumeric (code c) && all_identifier_codes 159 s

-- The label of the message is left out.
unfoldable pub require_safe_identifier : String → Result String
unfolding trim matches_identifier
require_safe_identifier value = do
  let normalized = trim value
  require (matches_identifier normalized) "must contain 1-160 safe identifier characters"
  ok normalized
