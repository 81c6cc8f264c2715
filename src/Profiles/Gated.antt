-- ===== src/Profiles/Gated.antt =====
-- apps/gateway/src/routes/profiles.ts: the content that payments unlock. AES-256-GCM, the check of
-- Ed25519 signatures and the conversion to lower case are arguments; a sealed URI is the list of its
-- characters' codes.
pub mod Seal
pub mod Access
use Prim.Native.Char.{code}
use Prim.Native.String
use Prim.Native.String.{◌++◌ as append}
use skaus.Prelude.{
  ℕ, ◌+◌, ◌-◌, ◌*◌, String, Bool, true, false, ◌&&◌, ◌||◌, not, Option, none, some, List, [], ◌∷◌,
  ◌++◌, map, ltb, leb, ◌==◌, if◌then◌else◌, str_eq,
}
use skaus.Prelude.Bytes.{Bytes}
use skaus.Withdraw.Hex.{byte_digits}
use skaus.Requests.Row.{Numbers}

-- `createCipheriv` with the key of the configuration, from the vector and the text to the cipher text
-- and the tag, and `createDecipheriv`, which may throw.
pub record Cipher : Type 0 where
  pub seal : Bytes → Bytes → Bytes × Bytes
  pub unseal : Bytes → Bytes → Bytes → Option Bytes

-- `enc:v1:`
abbrev pub sealed_prefix : Bytes
sealed_prefix = 101 ∷ 110 ∷ 99 ∷ 58 ∷ 118 ∷ 49 ∷ 58 ∷ []

abbrev pub dot : ℕ
dot = 46

unfoldable pub hex_char : ℕ → ℕ
hex_char d = if ltb d 10 then 48 + d else 87 + d

-- `toString('hex')`
unfoldable pub hex_text : Bytes → Bytes
hex_text bytes = map hex_char (byte_digits bytes)

unfoldable pub hex_value : ℕ → Option ℕ
hex_value c =
    if leb 48 c && leb c 57
    then some (c - 48)
    else if leb 97 c && leb c 102
    then some (c - 87)
    else if leb 65 c && leb c 70
    then some (c - 55)
    else none

abbrev pub byte_of : Option ℕ → Option ℕ → Bytes → Bytes
byte_of (some a) (some b) rest = (a * 16 + b) ∷ rest
byte_of (some a) none rest = []
byte_of none b rest = []

-- `Buffer.from(text, 'hex')`: it ends at the first character that is no digit.
unfoldable pub read_hex_text : Bytes → Bytes
read_hex_text [] = []
read_hex_text (x ∷ []) = []
read_hex_text (x ∷ y ∷ rest) = byte_of (hex_value x) (hex_value y) (read_hex_text rest)

abbrev pub onto_first : ℕ → List Bytes → List Bytes
onto_first c [] = (c ∷ []) ∷ []
onto_first c (part ∷ parts) = (c ∷ part) ∷ parts

-- `split('.')`
unfoldable pub split_dots : Bytes → List Bytes
split_dots [] = [] ∷ []
split_dots (c ∷ cs) =
    let parts = split_dots cs in if c == dot then [] ∷ parts else onto_first c parts

-- `startsWith(prefix)`, and what is behind it.
unfoldable pub behind_prefix : Bytes → Bytes → Option Bytes
behind_prefix [] text = some text
behind_prefix (p ∷ ps) [] = none
behind_prefix (p ∷ ps) (c ∷ cs) = if p == c then behind_prefix ps cs else none

unfoldable pub encrypt_uri : Cipher → Bytes → Bytes → Bytes
encrypt_uri cipher iv plain =
    let sealed = cipher.seal iv plain in
    sealed_prefix ++ (hex_text iv ++ dot ∷ (hex_text sealed.0 ++ dot ∷ hex_text sealed.1))

-- The three parts; any other number of them throws.
unfoldable pub decrypt_parts : Cipher → List Bytes → Option Bytes
decrypt_parts cipher (iv ∷ ct ∷ tag ∷ []) =
    cipher.unseal (read_hex_text iv) (read_hex_text ct) (read_hex_text tag)
decrypt_parts cipher [] = none
decrypt_parts cipher (iv ∷ []) = none
decrypt_parts cipher (iv ∷ ct ∷ []) = none
decrypt_parts cipher (iv ∷ ct ∷ tag ∷ more ∷ rest) = none

-- `decryptUri`: `none` is an exception.
unfoldable pub decrypt_uri : Cipher → Bytes → Option Bytes
decrypt_uri cipher text = elim (behind_prefix sealed_prefix text) [
  | none ↦ none
  | some rest ↦ decrypt_parts cipher (split_dots rest)
]

pub data SealReply : Type 0 where
  seal_missing_fields seal_invalid_url no_name_record : SealReply
  sealed_uri : Bytes → SealReply

-- POST /profiles/:username/gated/encrypt: `is_owner` is whether some name belongs to the authority. The
-- name in the path is not read.
unfoldable pub encrypt_gated :
    Cipher
    → Bytes
    → (String → Bool)
    → (String → Bool)
    → (String → Bytes)
    → String
    → String
    → String
    → String
    → SealReply
encrypt_gated cipher iv is_url is_owner utf8 username content_id plain_uri authority =
    if str_eq content_id "" || str_eq plain_uri "" || str_eq authority ""
    then seal_missing_fields
    else if not (is_url plain_uri)
    then seal_invalid_url
    else if is_owner authority
    then sealed_uri (encrypt_uri cipher iv (utf8 plain_uri))
    else no_name_record

-- What `.` matches: all but the ends of lines.
unfoldable pub in_line : String → Bool
in_line String.[] = true
in_line (String.◌∷◌ c s) =
    let n = code c in not (n == 10 || n == 13 || n == 8232 || n == 8233) && in_line s

unfoldable pub strip_prefix : String → String → Option String
strip_prefix String.[] text = some text
strip_prefix (String.◌∷◌ p ps) String.[] = none
strip_prefix (String.◌∷◌ p ps) (String.◌∷◌ c cs) =
    if code p == code c then strip_prefix ps cs else none

-- `/^tier:(.+)$/`
unfoldable pub tier_id_of : String → Option String
tier_id_of condition = elim (strip_prefix "tier:" condition) [
  | none ↦ none
  | some id ↦ if not (str_eq id "") && in_line id then some id else none
]

pub record GatedContent : Type 0 where
  pub content_id : String
  pub encrypted_uri : Option Bytes
  pub access_condition : Option String

module _ (n : Numbers) where
  open n use {Number, nought, less}

  pub record Tier : Type 0 where
    pub id : String
    pub amount : Number

  pub record GatedProfile : Type 0 where
    pub tiers : List Tier
    pub gated_content : List GatedContent

  -- A payment with the name of the request that it belongs to.
  pub record GatedPayment : Type 0 where
    pub username : String
    pub amount : Number
    pub payer_address : Option String

  unfoldable pub find_content : String → List GatedContent → Option GatedContent
  find_content id [] = none
  find_content id (c ∷ rest) = if str_eq c.content_id id then some c else find_content id rest

  unfoldable pub tier_amount : String → List Tier → Number
  tier_amount id [] = nought
  tier_amount id (t ∷ rest) = if str_eq t.id id then t.amount else tier_amount id rest

  unfoldable pub required_amount : List Tier → Option String → Number
  required_amount tiers none = nought
  required_amount tiers (some condition) = elim (tier_id_of condition) [
    | none ↦ nought
    | some id ↦ tier_amount id tiers
  ]

  pub record AccessRequest : Type 0 where
    pub username : String
    pub content_id : String
    pub tx_signature : String
    pub requester_address : String
    pub challenge_signature : String

  pub data AccessReply : Type 0 where
    access_missing_fields no_profile no_content not_encrypted : AccessReply
    no_payment wrong_creator too_little no_payer wrong_payer bad_signature not_decrypted :
        AccessReply
    unlocked : Bytes → AccessReply

  module _ (cipher : Cipher) (lower : String → String) (verify : String → String → String → Bool)
      (q : AccessRequest) where
    -- `skaus-unlock-v1:${contentId}:${txSignature}`
    unfoldable pub challenge : String
    challenge = append "skaus-unlock-v1:" (append q.content_id (append ":" q.tx_signature))

    abbrev pub unlock_with : Option Bytes → AccessReply
    unlock_with none = not_decrypted
    unlock_with (some plain) = unlocked plain

    unfoldable pub judge_payer : Bytes → Option String → AccessReply
    judge_payer uri none = no_payer
    judge_payer uri (some payer) =
        if str_eq payer ""
        then no_payer
        else if not (str_eq (lower payer) (lower q.requester_address))
        then wrong_payer
        else if verify q.requester_address challenge q.challenge_signature
        then unlock_with (decrypt_uri cipher uri)
        else bad_signature

    unfoldable pub judge_payment : Number → Bytes → Option GatedPayment → AccessReply
    judge_payment required uri none = no_payment
    judge_payment required uri (some pay) =
        if not (str_eq (lower pay.username) (lower q.username))
        then wrong_creator
        else if less pay.amount required
        then too_little
        else judge_payer uri pay.payer_address

    abbrev pub is_sealed : Option Bytes → Bool
    is_sealed none = false
    is_sealed (some uri) = elim (behind_prefix sealed_prefix uri) [
      | none ↦ false
      | some rest ↦ true
    ]

    unfoldable pub judge_uri : Number → Option GatedPayment → Option Bytes → AccessReply
    judge_uri required payment none = not_encrypted
    judge_uri required payment (some uri) =
        if is_sealed (some uri) then judge_payment required uri payment else not_encrypted

    unfoldable pub judge_content :
        List Tier → Option GatedPayment → Option GatedContent → AccessReply
    judge_content tiers payment none = no_content
    judge_content tiers payment (some c) =
        judge_uri (required_amount tiers c.access_condition) payment c.encrypted_uri

    unfoldable pub judge_profile : Option GatedPayment → Option GatedProfile → AccessReply
    judge_profile payment none = no_profile
    judge_profile payment (some p) =
        judge_content p.tiers payment (find_content q.content_id p.gated_content)

    -- POST /profiles/:username/gated/:contentId/access, with the profile of the name and the payment
    -- of the signature.
    unfoldable pub access_gated : Option GatedProfile → Option GatedPayment → AccessReply
    access_gated profile payment =
        if str_eq q.tx_signature ""
          || str_eq q.requester_address ""
          || str_eq q.challenge_signature ""
        then access_missing_fields
        else judge_profile payment profile
