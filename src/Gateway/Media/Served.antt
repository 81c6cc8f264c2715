-- ===== src/Gateway/Media/Served.antt =====
-- What is uploaded as an avatar is delivered.
use mathlib.Core.List.{append_assoc}
use skaus.Prelude.{
  ℕ, ◌<◌, ◌/◌, ◌%◌, ◌≡◌, refl, ap, ◌∙◌, sym, String, true, false, ◌&&◌, ◌⊎◌, inl, inr, Option, none,
  some, [], ◌∷◌, ◌++◌, map, ltb, str_eq, eq_iff, length, All, Bool-cases, arith,
}
use skaus.Prelude.Bytes.{Bytes, same_text, same_text_refl}
use skaus.Withdraw.Hex.{byte_digits}
use skaus.Profiles.Gated.{hex_char, hex_text}
use skaus.Gateway.Media.{
  is_word, all_word, is_username, lower_char, jpg, png, webp, max_bytes, extension_of, matches_type,
  Directory, read_file, uploaded, avatar_name, store_avatar, upload_avatar, span_word, mime_of,
  type_of_file, served, serve_avatar,
}

is_word-lower_char : (c : ℕ) → is_word (lower_char c) ≡ is_word c
unfolding is_word lower_char
is_word-lower_char c = ground arith

pub all_word-lower : (cs : Bytes) → all_word (map lower_char cs) ≡ all_word cs
unfolding all_word
all_word-lower [] = refl
all_word-lower (c ∷ cs) = ground (arith, is_word-lower_char c, all_word-lower cs)

all_word-append : (xs ys : Bytes) → all_word (xs ++ ys) ≡ (all_word xs && all_word ys)
unfolding all_word
all_word-append [] ys = refl
all_word-append (x ∷ xs) ys = ground (arith, all_word-append xs ys)

is_word-hex_char : (d : ℕ) → d < 16 → is_word (hex_char d) ≡ true
unfolding is_word hex_char
is_word-hex_char d h = ground arith

all_word-hex_text : (bytes : Bytes) → All (λ b. b < 256) bytes → all_word (hex_text bytes) ≡ true
unfolding all_word hex_text byte_digits
all_word-hex_text [] h = refl
all_word-hex_text (b ∷ bs) (hb, h) = ground (
  arith,
  is_word-hex_char (b / 16) (omega arith),
  is_word-hex_char (b % 16) (omega arith),
  all_word-hex_text bs h,
)

-- The word characters end where another character stands.
span_word-append :
    (xs : Bytes) (c : ℕ) (rest : Bytes)
    → all_word xs ≡ true
    → is_word c ≡ false
    → span_word (xs ++ c ∷ rest) ≡ (xs, c ∷ rest)
unfolding span_word all_word
span_word-append [] c rest h e = rw e
span_word-append (x ∷ xs) c rest h e = ground (arith, span_word-append xs c rest)

dash_is_word : (is_word 45 && true) ≡ true
unfolding is_word
dash_is_word = refl

dot_is_no_word : is_word 46 ≡ false
unfolding is_word
dot_is_no_word = refl

type_of_file-dot :
    (x : ℕ) (xs ext : Bytes)
    → all_word (x ∷ xs) ≡ true
    → type_of_file ((x ∷ xs) ++ 46 ∷ ext) ≡ mime_of (map lower_char ext)
unfolding type_of_file
type_of_file-dot x xs ext h = rw (span_word-append (x ∷ xs) 46 ext h dot_is_no_word) (ground arith)

word_behind :
    (username random : Bytes)
    → all_word username ≡ true
    → All (λ b. b < 256) random
    → all_word (map lower_char username ++ 45 ∷ hex_text random) ≡ true
unfolding all_word
word_behind username random h k =
    all_word-append (map lower_char username) (45 ∷ hex_text random)
    ∙ rw (all_word-lower username, h, all_word-hex_text random k) dash_is_word

type_of_file-avatar_name :
    (username random ext : Bytes)
    → all_word username ≡ true
    → All (λ b. b < 256) random
    → type_of_file (avatar_name username random (46 ∷ ext)) ≡ mime_of (map lower_char ext)
unfolding avatar_name
type_of_file-avatar_name [] random ext h k =
    type_of_file-dot 45 (hex_text random) ext (word_behind [] random h k)
type_of_file-avatar_name (c ∷ cs) random ext h k =
    ap type_of_file (sym (append_assoc (map lower_char (c ∷ cs)) (45 ∷ hex_text random) (46 ∷ ext)))
    ∙ type_of_file-dot (lower_char c) (map lower_char cs ++ 45 ∷ hex_text random) ext
        (word_behind (c ∷ cs) random h k)

serve_stored :
    (name : Bytes) (mime : String) (bytes : Bytes) (files : Directory)
    → type_of_file name ≡ some mime
    → serve_avatar name ((name, bytes) ∷ files) ≡ served mime bytes
unfolding serve_avatar read_file
serve_stored name mime bytes files t = rw (t, serve_avatar, same_text_refl name) refl

-- A file that is stored is delivered with the type of its name.
store_avatar-served :
    (name other : Bytes) (content_type mime : String) (bytes : Bytes) (files : Directory)
    → type_of_file name ≡ some mime
    → (store_avatar name content_type bytes files).0 ≡ uploaded other
    → serve_avatar other (store_avatar name content_type bytes files).1 ≡ served mime bytes
unfolding store_avatar
store_avatar-served name other content_type mime bytes files t h =
    elim (Bool-cases (ltb max_bytes (length bytes))) [
      | inl big ↦ let f = rw big at h in cc
      | inr fits ↦ elim (Bool-cases (matches_type content_type bytes)) [
        | inl m ↦
            let f = rw (fits, m) at h in
            let same : name ≡ other = cc in
            rw (fits, m, ← same) (serve_stored name mime bytes files t)
        | inr m ↦ let f = rw (fits, m) at h in cc
      ]
    ]

mime_of_own :
    (mime_of (map lower_char jpg) ≡ some "image/jpeg")
    × (mime_of (map lower_char png) ≡ some "image/png")
    × (mime_of (map lower_char webp) ≡ some "image/webp")
unfolding mime_of same_text lower_char
mime_of_own = (refl, refl, refl)

-- The extension of a declared type is one that is delivered with that type.
extension_of-own :
    (inherited : String → Option Bytes) (content_type : String)
    → inherited content_type ≡ none
    → (extension_of inherited content_type ≡ none)
      ⊎ ((ext : Bytes) × (extension_of inherited content_type ≡ some (46 ∷ ext))
          × (mime_of (map lower_char ext) ≡ some content_type))
unfolding extension_of
extension_of-own inherited t own = elim (Bool-cases (str_eq t "image/jpeg")) [
  | inl e ↦ inr (jpg, rw e refl, mime_of_own.0 ∙ ap some (sym ((eq_iff t "image/jpeg").0 e)))
  | inr a ↦ elim (Bool-cases (str_eq t "image/png")) [
    | inl e ↦ inr (png, rw (a, e) refl, mime_of_own.1 ∙ ap some (sym ((eq_iff t "image/png").0 e)))
    | inr b ↦ elim (Bool-cases (str_eq t "image/webp")) [
      | inl e ↦
          inr (webp, rw (a, b, e) refl, mime_of_own.2 ∙ ap some (sym ((eq_iff t "image/webp").0 e)))
      | inr c ↦ inl (rw (a, b, c) own)
    ]
  ]
]

-- What was uploaded is delivered: if the declared type is no property that every object inherits, and
-- the random values are bytes, an upload that is answered with a file's name leaves a directory
-- from which that name is delivered with the declared type and the uploaded bytes.
pub upload_avatar-served :
    (inherited : String → Option Bytes) (random username : Bytes) (content_type : String)
    (bytes : Bytes) (files : Directory) (name : Bytes)
    → inherited content_type ≡ none
    → All (λ b. b < 256) random
    → (upload_avatar inherited random username content_type bytes files).0 ≡ uploaded name
    → serve_avatar name (upload_avatar inherited random username content_type bytes files).1
      ≡ served content_type bytes
unfolding upload_avatar is_username
upload_avatar-served inherited random username content_type bytes files name own k h =
    elim (Bool-cases (is_username username)) [
      | inr bad ↦ let f = rw bad at h in cc
      | inl good ↦ elim (extension_of-own inherited content_type own) [
        | inl e ↦ let f = rw (good, e) at h in cc
        | inr (ext, e, mime) ↦
            let word : all_word username ≡ true = ground arith in
            rw (good, e)
              (store_avatar-served (avatar_name username random (46 ∷ ext)) name content_type
                content_type bytes files
                (type_of_file-avatar_name username random ext word k ∙ mime) (rw (good, e) at h))
      ]
    ]
