-- ===== src/Names/Validity.antt =====
-- The checks of a name: `validateName` of packages/crypto/src/name-registry.ts, `isValidName` of
-- apps/gateway/src/routes/names.ts, and `validate_name` of
-- programs/name-registry/src/utils/validation.rs.
pub mod Laws
use Prim.Native.Char.{Char, code}
use Prim.Native.String
use skaus.Prelude.{
  ℕ, ◌+◌, ◌/◌, ◌%◌, String, Bool, true, false, ◌&&◌, ◌||◌, not, List, [], ◌∷◌, ◌++◌, ltb, leb, ◌==◌,
  if◌then◌else◌, length, str_eq,
}
use skaus.Prelude.Bytes.{Bytes}

-- The outcomes of both checks, in the order of the tests.
pub data Verdict : Type 0 where
  accepted too_short too_long bad_prefix bad_characters reserved : Verdict

-- The bytes of a character in UTF-8.
unfoldable pub utf8_char : Char → Bytes
utf8_char c =
    let n = code c in
    if ltb n 128
    then n ∷ []
    else if ltb n 2048
    then (192 + n / 64) ∷ (128 + n % 64) ∷ []
    else if ltb n 65536
    then (224 + n / 4096) ∷ (128 + n / 64 % 64) ∷ (128 + n % 64) ∷ []
    else (240 + n / 262144) ∷ (128 + n / 4096 % 64) ∷ (128 + n / 64 % 64) ∷ (128 + n % 64) ∷ []

-- `new TextEncoder().encode(name)`, `name.as_bytes()`.
unfoldable pub utf8 : String → Bytes
utf8 String.[] = []
utf8 (String.◌∷◌ c s) = utf8_char c ++ utf8 s

-- `name.length`, in units of 16 bits.
unfoldable pub utf16_length : String → ℕ
utf16_length String.[] = 0
utf16_length (String.◌∷◌ c s) = (if ltb (code c) 65536 then 1 else 2) + utf16_length s

-- `[a-z0-9_-]`
unfoldable pub is_name_byte : ℕ → Bool
is_name_byte n = leb b'a' n && leb n b'z' || leb b'0' n && leb n b'9' || n == b'_' || n == b'-'

unfoldable pub all_name_chars : String → Bool
all_name_chars String.[] = true
all_name_chars (String.◌∷◌ c s) = is_name_byte (code c) && all_name_chars s

unfoldable pub all_name_bytes : Bytes → Bool
all_name_bytes [] = true
all_name_bytes (b ∷ bs) = is_name_byte b && all_name_bytes bs

unfoldable pub is_bad_first : ℕ → Bool
is_bad_first n = n == b'_' || n == b'-'

-- `name[0] === '_' || name[0] === '-'`
unfoldable pub has_bad_prefix : String → Bool
has_bad_prefix String.[] = false
has_bad_prefix (String.◌∷◌ c s) = is_bad_first (code c)

-- The first of the bytes, which is read behind the test of the length.
unfoldable pub has_bad_first_byte : Bytes → Bool
has_bad_first_byte [] = false
has_bad_first_byte (b ∷ bs) = is_bad_first b

unfoldable pub includes : List String → String → Bool
includes [] name = false
includes (word ∷ words) name = str_eq word name || includes words name

abbrev pub reserved_names : List String
reserved_names =
    "admin" ∷ "skaus" ∷ "support" ∷ "help" ∷ "root" ∷ "system" ∷ "official" ∷ "mod" ∷ "moderator"
    ∷ "staff" ∷ "api" ∷ "app" ∷ "www" ∷ "mail" ∷ "null" ∷ "undefined" ∷ "test" ∷ "demo" ∷ []

unfoldable pub validate_name : String → Verdict
validate_name name =
    if ltb (utf16_length name) 3
    then too_short
    else if ltb 32 (utf16_length name)
    then too_long
    else if has_bad_prefix name
    then bad_prefix
    else if not (all_name_chars name)
    then bad_characters
    else if includes reserved_names name
    then reserved
    else accepted

-- The program's, on the bytes of the name.
unfoldable pub validate_name_on_chain : String → Verdict
validate_name_on_chain name =
    let bytes = utf8 name in
    if ltb (length bytes) 3
    then too_short
    else if ltb 32 (length bytes)
    then too_long
    else if has_bad_first_byte bytes
    then bad_prefix
    else if not (all_name_bytes bytes)
    then bad_characters
    else if includes reserved_names name
    then reserved
    else accepted

-- The gateway's.
unfoldable pub is_valid_name : String → Bool
is_valid_name name =
    if ltb (utf16_length name) 3 || ltb 32 (utf16_length name)
    then false
    else if has_bad_prefix name
    then false
    else all_name_chars name
