-- ===== src/Gateway/Media/Tests.antt =====
-- Runs of the media's upload and delivery at concrete inputs.
use skaus.Prelude.{◌≡◌, refl, String, Option, none, some, [], ◌∷◌, arith}
use skaus.Prelude.Bytes.{Bytes, same_text}
use skaus.Withdraw.Hex.{byte_digits}
use skaus.Profiles.Gated.{hex_char, hex_text}
use skaus.Gateway.Media.{
  is_word, all_word, is_username, lower_char, extension_of, matches_type, read_file, uploaded,
  avatar_name, store_avatar, upload_avatar, span_word, mime_of, type_of_file, served, serve_avatar,
}
use skaus.Gateway.Media.Served.{upload_avatar-served}
use skaus.Gateway.Media.Plain.{IsPlain, serve_avatar-IsPlain}

abbrev inherited : String → Option Bytes
inherited text = none

-- `Al`, and what is stored for it.
abbrev user : Bytes
user = 65 ∷ 108 ∷ []

abbrev random : Bytes
random = 1 ∷ 2 ∷ 3 ∷ 255 ∷ []

abbrev picture : Bytes
picture = 255 ∷ 216 ∷ 7 ∷ []

abbrev file : Bytes
file = 97 ∷ 108 ∷ 45 ∷ 48 ∷ 49 ∷ 48 ∷ 50 ∷ 48 ∷ 51 ∷ 102 ∷ 102 ∷ 46 ∷ 106 ∷ 112 ∷ 103 ∷ []

upload_run : (upload_avatar inherited random user "image/jpeg" picture []).0 ≡ uploaded file
unfolding upload_avatar is_username all_word is_word extension_of store_avatar matches_type
    avatar_name lower_char hex_text hex_char byte_digits
upload_run = refl

upload_avatar-served_example :
    serve_avatar file (upload_avatar inherited random user "image/jpeg" picture []).1
    ≡ served "image/jpeg" picture
upload_avatar-served_example =
    upload_avatar-served inherited random user "image/jpeg" picture [] file refl
      (omega arith, (omega arith, (omega arith, (omega arith, tt)))) upload_run

serve_run : serve_avatar file ((file, picture) ∷ []) ≡ served "image/jpeg" picture
unfolding serve_avatar type_of_file span_word is_word mime_of same_text lower_char read_file
serve_run = refl

serve_avatar-IsPlain_example :
    IsPlain file "image/jpeg" × (read_file file ((file, picture) ∷ []) ≡ some picture)
serve_avatar-IsPlain_example =
    serve_avatar-IsPlain file ((file, picture) ∷ []) "image/jpeg" picture serve_run
