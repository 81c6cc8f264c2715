-- ===== src/Requests/Slug.antt =====
-- apps/gateway/src/routes/requests.ts: `toSlug`. The conversion to lower case is an argument.
pub mod Laws
use Prim.Native.Char.{Char, code}
use Prim.Native.String
use skaus.Prelude.{
  ℕ, zero, suc, String, Bool, true, false, ◌&&◌, ◌||◌, not, leb, ◌==◌, if◌then◌else◌,
}

-- `[a-z0-9]`
unfoldable pub is_letter : Char → Bool
is_letter c = leb b'a' (code c) && leb (code c) b'z' || leb b'0' (code c) && leb (code c) b'9'

unfoldable pub is_hyphen : Char → Bool
is_hyphen c = code c == b'-'

-- `\s`, by code units.
unfoldable pub is_space : Char → Bool
is_space c =
    let n = code c in
    leb 9 n && leb n 13
    || n == 32
    || n == 160
    || n == 5760
    || leb 8192 n && leb n 8202
    || n == 8232
    || n == 8233
    || n == 8239
    || n == 8287
    || n == 12288
    || n == 65279

unfoldable pub trim_start : String → String
trim_start String.[] = String.[]
trim_start (String.◌∷◌ c s) = let rest = trim_start s in if is_space c then rest else String.◌∷◌ c s

-- A character before a text that was trimmed at its end.
abbrev before_trimmed : Char → String → String
before_trimmed c String.[] = if is_space c then String.[] else String.◌∷◌ c String.[]
before_trimmed c (String.◌∷◌ d s) = String.◌∷◌ c (String.◌∷◌ d s)

unfoldable pub trim_end : String → String
trim_end String.[] = String.[]
trim_end (String.◌∷◌ c s) = before_trimmed c (trim_end s)

-- `replace(/[^a-z0-9\s-]/g, '')`
unfoldable pub strip_special : String → String
strip_special String.[] = String.[]
strip_special (String.◌∷◌ c s) =
    let rest = strip_special s in
    if is_letter c || is_space c || is_hyphen c then String.◌∷◌ c rest else rest

-- `replace(/\s+/g, '-')`, in a run of spaces or not.
unfoldable pub hyphenate : Bool → String → String
hyphenate run String.[] = String.[]
hyphenate run (String.◌∷◌ c s) =
    let within = hyphenate true s in
    let behind = hyphenate false s in
    if is_space c then (if run then within else String.◌∷◌ "-" within) else String.◌∷◌ c behind

-- `replace(/-+/g, '-')`, in a run of hyphens or not.
unfoldable pub collapse : Bool → String → String
collapse run String.[] = String.[]
collapse run (String.◌∷◌ c s) =
    let within = collapse true s in
    let behind = collapse false s in
    if is_hyphen c then (if run then within else String.◌∷◌ "-" within) else String.◌∷◌ c behind

-- The two ends of `replace(/^-|-$/g, '')`.
unfoldable pub drop_first_hyphen : String → String
drop_first_hyphen String.[] = String.[]
drop_first_hyphen (String.◌∷◌ c s) = if is_hyphen c then s else String.◌∷◌ c s

unfoldable pub drop_last_hyphen : String → String
drop_last_hyphen String.[] = String.[]
drop_last_hyphen (String.◌∷◌ c String.[]) =
    if is_hyphen c then String.[] else String.◌∷◌ c String.[]
drop_last_hyphen (String.◌∷◌ c (String.◌∷◌ d s)) = String.◌∷◌ c (drop_last_hyphen (String.◌∷◌ d s))

-- `slice(0, n)`
unfoldable pub cut_after : ℕ → String → String
cut_after zero s = String.[]
cut_after (suc n) String.[] = String.[]
cut_after (suc n) (String.◌∷◌ c s) = String.◌∷◌ c (cut_after n s)

-- `s || fallback`
unfoldable pub or_else : String → String → String
or_else String.[] fallback = fallback
or_else (String.◌∷◌ c s) fallback = String.◌∷◌ c s

unfoldable pub to_slug : (String → String) → String → String
to_slug lower text =
    let stripped = strip_special (trim_end (trim_start (lower text))) in
    let joined = collapse false (hyphenate false stripped) in
    or_else (cut_after 60 (drop_last_hyphen (drop_first_hyphen joined))) "payment"
