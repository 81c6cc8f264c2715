-- ===== src/Web/Usernames.antt =====
-- The choice of a name in apps/web/src/app/onboarding/page.tsx, with the check and the lookup of
-- apps/web/src/lib/onboarding.ts. What the gateway's two routes answer is an argument.
pub mod Available
mod Tests
use Prim.Native.Char.{code}
use skaus.Prelude.{
  ℕ, String, Bool, true, false, ◌&&◌, ◌||◌, not, Option, none, some, leb, ltb, ◌==◌, if◌then◌else◌,
}
use skaus.Names.Validity.{utf16_length}

-- The outcomes of `isValidUsername`, in the order of its tests.
pub data UsernameCheck : Type 0 where
  valid under_three over_twenty bad_letters edge_underscore : UsernameCheck

-- `[a-z0-9_]`
unfoldable pub is_username_byte : ℕ → Bool
is_username_byte n = (leb 97 n && leb n 122) || (leb 48 n && leb n 57) || n == 95

unfoldable pub all_username_chars : String → Bool
all_username_chars String.[] = true
all_username_chars (String.◌∷◌ c s) = is_username_byte (code c) && all_username_chars s

unfoldable pub starts_underscore : String → Bool
starts_underscore String.[] = false
starts_underscore (String.◌∷◌ c s) = code c == 95

unfoldable pub ends_underscore : String → Bool
ends_underscore String.[] = false
ends_underscore (String.◌∷◌ c String.[]) = code c == 95
ends_underscore (String.◌∷◌ c (String.◌∷◌ d s)) = ends_underscore (String.◌∷◌ d s)

unfoldable pub is_valid_username : String → UsernameCheck
is_valid_username name =
    if ltb (utf16_length name) 3
    then under_three
    else if ltb 20 (utf16_length name)
    then over_twenty
    else if not (all_username_chars name)
    then bad_letters
    else if starts_underscore name || ends_underscore name
    then edge_underscore
    else valid

-- `value.toLowerCase().replace(/[^a-z0-9_]/g, '')`
unfoldable pub keep_username : String → String
keep_username String.[] = String.[]
keep_username (String.◌∷◌ c s) =
    let rest = keep_username s in if is_username_byte (code c) then String.◌∷◌ c rest else rest

-- The name in the field, and whether a lookup is started for it after a pause.
unfoldable pub handle_username_change : (String → String) → String → String × Bool
handle_username_change lower value =
    let cleaned = keep_username (lower value) in (cleaned, leb 3 (utf16_length cleaned))

-- An answer of the gateway: none, 404, another status that is no success, or a flag, which may be left
-- out.
pub data Answer : Type 0 where
  unreachable not_found other_status : Answer
  flagged : Option Bool → Answer

-- The second query, of GET /names/:username; `none` is an exception.
unfoldable pub availability_of_name : Answer → Option Bool
availability_of_name unreachable = none
availability_of_name not_found = some true
availability_of_name other_status = some true
availability_of_name (flagged none) = some false
availability_of_name (flagged (some free)) = some free

-- `checkUsernameAvailability`, with the answers of GET /names/:username/available and of
-- GET /names/:username.
unfoldable pub check_username_availability : Answer → Answer → Option (Option Bool)
check_username_availability unreachable name = elim (availability_of_name name) [
  | none ↦ none
  | some free ↦ some (some free)
]
check_username_availability other_status name = elim (availability_of_name name) [
  | none ↦ none
  | some free ↦ some (some free)
]
check_username_availability not_found name = some (some true)
check_username_availability (flagged free) name = some free

pub data UsernameStatus : Type 0 where
  invalid free_name taken_name : UsernameStatus

-- A flag that is left out counts as taken, an exception as available.
unfoldable pub status_of_flag : Option (Option Bool) → UsernameStatus
status_of_flag none = free_name
status_of_flag (some none) = taken_name
status_of_flag (some (some free)) = if free then free_name else taken_name

abbrev pub is_valid : UsernameCheck → Bool
is_valid valid = true
is_valid under_three = false
is_valid over_twenty = false
is_valid bad_letters = false
is_valid edge_underscore = false

-- `checkAvailability`
unfoldable pub check_availability : Answer → Answer → String → UsernameStatus
check_availability available name_answer name =
    if is_valid (is_valid_username name)
    then status_of_flag (check_username_availability available name_answer)
    else invalid
