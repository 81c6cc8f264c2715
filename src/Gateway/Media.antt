-- ===== src/Gateway/Media.antt =====
-- apps/gateway/src/routes/media.ts: the upload of an avatar and its delivery. A text is the list of its
-- characters' codes. The files, the random bytes, the decoding of base 64 and the properties that
-- every JavaScript object inherits are arguments.
pub mod Served
pub mod Plain
mod Tests
use skaus.Prelude.{
  ℕ, ◌+◌, String, Bool, true, false, ◌&&◌, ◌||◌, not, Option, none, some, List, [], ◌∷◌, ◌++◌, map,
  leb, ltb, ◌==◌, if◌then◌else◌, str_eq, length, take, get_elem?,
}
use skaus.Prelude.Bytes.{Bytes, same_text}
use skaus.Profiles.Gated.{hex_text}

-- `[a-z0-9_-]`, without regard to case.
unfoldable pub is_word : ℕ → Bool
is_word c =
    (leb 97 c && leb c 122)
    || (leb 65 c && leb c 90)
    || (leb 48 c && leb c 57)
    || c == 95
    || c == 45

unfoldable pub all_word : Bytes → Bool
all_word [] = true
all_word (c ∷ cs) = is_word c && all_word cs

-- `/^[a-z0-9_-]{1,32}$/i`
unfoldable pub is_username : Bytes → Bool
is_username name = leb 1 (length name) && leb (length name) 32 && all_word name

-- `toLowerCase()` of ASCII.
unfoldable pub lower_char : ℕ → ℕ
lower_char c = if leb 65 c && leb c 90 then c + 32 else c

-- `.jpg`, `.png` and `.webp`
abbrev pub jpg : Bytes
jpg = 106 ∷ 112 ∷ 103 ∷ []

abbrev pub png : Bytes
png = 112 ∷ 110 ∷ 103 ∷ []

abbrev pub webp : Bytes
webp = 119 ∷ 101 ∷ 98 ∷ 112 ∷ []

abbrev pub max_bytes : ℕ
max_bytes = 1_048_576

-- `ALLOWED_TYPES[contentType]`
unfoldable pub extension_of : (String → Option Bytes) → String → Option Bytes
extension_of inherited content_type =
    if str_eq content_type "image/jpeg"
    then some (46 ∷ jpg)
    else if str_eq content_type "image/png"
    then some (46 ∷ png)
    else if str_eq content_type "image/webp"
    then some (46 ∷ webp)
    else inherited content_type

-- `buf[i] === b`
abbrev pub is_byte : Option ℕ → ℕ → Bool
is_byte none b = false
is_byte (some a) b = a == b

-- The magic bytes of a declared type.
unfoldable pub matches_type : String → Bytes → Bool
matches_type content_type bytes =
    if str_eq content_type "image/jpeg"
    then is_byte (get_elem? bytes 0) 255 && is_byte (get_elem? bytes 1) 216
    else if str_eq content_type "image/png"
    then same_text (take 4 bytes) (137 ∷ 80 ∷ 78 ∷ 71 ∷ [])
    else true

-- The directory of avatars: the files with their contents, the newest first.
abbrev pub Directory : Type 0
Directory = List (Bytes × Bytes)

unfoldable pub read_file : Bytes → Directory → Option Bytes
read_file name [] = none
read_file name ((file, bytes) ∷ files) =
    if same_text file name then some bytes else read_file name files

pub data UploadReply : Type 0 where
  invalid_username bad_type too_large mismatch : UploadReply
  -- the name behind the public URL of the media
  uploaded : Bytes → UploadReply

-- `${username.toLowerCase()}-${randomBytes(4).toString('hex')}${ext}`
unfoldable pub avatar_name : Bytes → Bytes → Bytes → Bytes
avatar_name username random extension =
    map lower_char username ++ 45 ∷ (hex_text random ++ extension)

unfoldable pub store_avatar : Bytes → String → Bytes → Directory → UploadReply × Directory
store_avatar name content_type bytes files =
    if ltb max_bytes (length bytes)
    then (too_large, files)
    else if matches_type content_type bytes
    then (uploaded name, (name, bytes) ∷ files)
    else (mismatch, files)

-- POST /media/avatar, with the decoded bytes.
unfoldable pub upload_avatar :
    (String → Option Bytes) → Bytes → Bytes → String → Bytes → Directory → UploadReply × Directory
upload_avatar inherited random username content_type bytes files =
    if is_username username
    then (elim (extension_of inherited content_type) [
      | none ↦ (bad_type, files)
      | some extension ↦
          store_avatar (avatar_name username random extension) content_type bytes files
    ])
    else (invalid_username, files)

-- The name of a file up to its first character that is no `[a-z0-9_-]`, and the rest.
unfoldable pub span_word : Bytes → Bytes × Bytes
span_word [] = ([], [])
span_word (c ∷ cs) =
    let rest = span_word cs in if is_word c then (c ∷ rest.0, rest.1) else ([], c ∷ cs)

-- `mimeMap[ext]` for `jpg|png|webp`, without regard to case.
unfoldable pub mime_of : Bytes → Option String
mime_of ext =
    if same_text ext jpg
    then some "image/jpeg"
    else if same_text ext png
    then some "image/png"
    else if same_text ext webp
    then some "image/webp"
    else none

abbrev pub mime_behind_dot : Bytes → Option String
mime_behind_dot [] = none
mime_behind_dot (c ∷ ext) = if c == 46 then mime_of (map lower_char ext) else none

-- `/^[a-z0-9_-]+\.(jpg|png|webp)$/i`, with the type of the extension.
unfoldable pub type_of_file : Bytes → Option String
type_of_file filename =
    let parts = span_word filename in
    if leb 1 (length parts.0) then mime_behind_dot parts.1 else none

pub data ServeReply : Type 0 where
  invalid_filename not_found : ServeReply
  served : String → Bytes → ServeReply

abbrev pub served_file : String → Option Bytes → ServeReply
served_file mime none = not_found
served_file mime (some bytes) = served mime bytes

-- GET /media/avatar/:filename
unfoldable pub serve_avatar : Bytes → Directory → ServeReply
serve_avatar filename files = elim (type_of_file filename) [
  | none ↦ invalid_filename
  | some mime ↦ served_file mime (read_file filename files)
]
