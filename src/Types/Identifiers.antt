-- ===== src/Types/Identifiers.antt =====
-- internal/platform/types/types.go and internal/platform/hash/hash.go: the regular expressions of
-- identifiers and hashes, as matchers by recursion on the text.
use Prim.Native.Char.{Char, code}
use Prim.Native.String.{[], ◌∷◌, len, count}
use specforge.Prelude.{
  String, Bool, true, false, ◌&&◌, ◌||◌, not, Option, none, some, leb, ltb, eqb, if◌then◌else◌,
}

is_upper : Char → Bool
is_upper c = leb b'A' (code c) && leb (code c) b'Z'

is_lower : Char → Bool
is_lower c = leb b'a' (code c) && leb (code c) b'z'

is_digit : Char → Bool
is_digit c = leb b'0' (code c) && leb (code c) b'9'

is_dash : Char → Bool
is_dash c = eqb (code c) b'-'

is_alnum : Char → Bool
unfolding is_upper is_lower is_digit
is_alnum c = is_upper c || is_lower c || is_digit c

-- `(-[A-Za-z0-9]+)+$` behind its first dash; the flag says that a dash was just read.
segments : Bool → String → Bool
unfolding is_alnum is_dash
segments fresh [] = not fresh
segments fresh (c ∷ s) = (is_alnum c || is_dash c && not fresh) && segments (is_dash c) s

-- `[A-Z0-9]*` and the dash that ends it.
head_part : String → Bool
unfolding segments is_upper is_digit
head_part [] = false
head_part (c ∷ s) =
    let rest = head_part s in
    if is_upper c || is_digit c then rest else if is_dash c then segments true s else false

matches_artifact_id : String → Bool
unfolding head_part
matches_artifact_id [] = false
matches_artifact_id (c ∷ s) = is_upper c && head_part s

-- `ParseArtifactID` returns the text itself, so that only its success is modelled.
unfoldable pub artifact_id_valid : String → Bool
unfolding matches_artifact_id
artifact_id_valid s = not (ltb 120 (len s)) && matches_artifact_id s

all_chars : (Char → Bool) → String → Bool
all_chars p [] = true
all_chars p (c ∷ s) = p c && all_chars p s

abbrev is_slug_char : Char → Bool
unfolding is_lower is_digit is_dash
is_slug_char c = is_lower c || is_digit c || is_dash c

-- `^[a-z][a-z0-9-]{2,39}$`
unfoldable pub slug_valid : String → Bool
unfolding is_slug_char all_chars
slug_valid [] = false
slug_valid (c ∷ s) = is_lower c && all_chars is_slug_char s && leb 2 (count s) && leb (count s) 39

abbrev is_key_char : Char → Bool
unfolding is_upper is_digit
is_key_char c = is_upper c || is_digit c

-- `^[A-Z][A-Z0-9]{1,9}$`
unfoldable pub project_key_valid : String → Bool
unfolding is_key_char all_chars
project_key_valid [] = false
project_key_valid (c ∷ s) =
    is_upper c && all_chars is_key_char s && leb 1 (count s) && leb (count s) 9

unfoldable pub is_hex : Char → Bool
unfolding is_digit
is_hex c = is_digit c || leb b'a' (code c) && leb (code c) b'f'

strip_char : Char → String → Option String
strip_char c [] = none
strip_char c (d ∷ s) = if eqb (code c) (code d) then some s else none

strip_prefix : String → String → Option String
unfolding strip_char
strip_prefix [] s = some s
strip_prefix (c ∷ p) s = elim (strip_char c s) [ some rest ↦ strip_prefix p rest | none ↦ none ]

-- `ValidChainHash`: 64 lower-case hexadecimal digits.
unfoldable pub valid_chain_hash : String → Bool
unfolding all_chars is_hex
valid_chain_hash s = eqb (len s) 64 && all_chars is_hex s

hex_digest : Option String → Bool
unfolding all_chars is_hex
hex_digest none = false
hex_digest (some d) = eqb (count d) 64 && all_chars is_hex d

-- `^sha256:[0-9a-f]{64}$`
unfoldable pub content_hash_valid : String → Bool
unfolding strip_prefix hex_digest
content_hash_valid h = hex_digest (strip_prefix "sha256:" h)
