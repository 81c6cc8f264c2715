-- ===== src/Notes/Encryption.antt =====
-- packages/crypto/src/encryption.ts and packages/crypto/src/stealth.ts. SHA-256, X25519, the text of
-- JSON and the decimal texts of numbers are parameters; random bytes are arguments. A hexadecimal text
-- is the list of its digits' values.
pub mod Parts
pub mod RoundTrip
use skaus.Prelude.{
  ℕ, zero, suc, ◌+◌, ◌-◌, ◌*◌, ◌/◌, ◌%◌, String, Bool, true, false, Option, none, some, List, [],
  ◌∷◌, ◌++◌, ltb, ◌==◌, if◌then◌else◌, length, take, drop, get_elem?,
}
use skaus.Prelude.Bytes.{Bytes, slice, le_bytes}
use skaus.Withdraw.Hex.{byte_digits, from_hex}

pub record DepositNoteData : Type 0 where
  pub secret : ℕ
  pub nullifier : ℕ
  pub amount : ℕ
  pub token_mint : String
  pub ephemeral_pubkey : Bytes

-- The object that is written as JSON.
pub record JsonNote : Type 0 where
  pub secret : String
  pub nullifier : String
  pub amount : String
  pub token_mint : String
  pub ephemeral_pubkey : List ℕ

pub record Primitives : Type 0 where
  pub sha256 : Bytes → Bytes
  pub public_key : Bytes → Bytes
  pub shared_secret : Bytes → Bytes → Bytes
  pub to_json : JsonNote → Bytes
  pub from_json : Bytes → Option JsonNote
  pub decimal : ℕ → String
  pub big_int : String → Option ℕ
  pub domain : Bytes

-- `a ^ b` and `a | b` on numbers of `w` bits.
unfoldable pub bit_xor : ℕ → ℕ → ℕ → ℕ
bit_xor zero a b = 0
bit_xor (suc w) a b = (a % 2 + b % 2) % 2 + 2 * bit_xor w (a / 2) (b / 2)

unfoldable pub bit_or : ℕ → ℕ → ℕ → ℕ
bit_or zero a b = 0
bit_or (suc w) a b = (a % 2 + b % 2 + 1) / 2 + 2 * bit_or w (a / 2) (b / 2)

-- The loop of `constantTimeEqual` over two lists of one length.
unfoldable pub differences : ℕ → Bytes → Bytes → ℕ
differences result [] bs = result
differences result (a ∷ as') [] = result
differences result (a ∷ as') (b ∷ bs) = differences (bit_or 8 result (bit_xor 8 a b)) as' bs

unfoldable pub constant_time_equal : Bytes → Bytes → Bool
constant_time_equal a b = if length a == length b then differences 0 a b == 0 else false

-- `stream[i]`
unfoldable pub byte_at : Bytes → ℕ → ℕ
byte_at stream i = elim (get_elem? stream i) [ some b ↦ b | none ↦ 0 ]

module _ (p : Primitives) where
  open p use {sha256, public_key, shared_secret, to_json, from_json, decimal, big_int, domain}

  unfoldable pub derive_note_key : Bytes → Bytes
  derive_note_key secret = sha256 (secret ++ domain)

  -- `xorCipher` from an index on.
  unfoldable pub xor_from : Bytes → Bytes → ℕ → Bytes → Bytes
  xor_from key nonce i [] = []
  xor_from key nonce i (b ∷ bs) =
      let stream = sha256 (key ++ (nonce ++ le_bytes 4 i)) in
      bit_xor 8 b (byte_at stream (i % 32)) ∷ xor_from key nonce (i + 1) bs

  unfoldable pub xor_cipher : Bytes → Bytes → Bytes → Bytes
  xor_cipher bytes key nonce = xor_from key nonce 0 bytes

  unfoldable pub compute_tag : Bytes → Bytes → Bytes → Bytes
  compute_tag key nonce ciphertext = take 16 (sha256 (key ++ (nonce ++ ciphertext)))

  abbrev pub json_of : DepositNoteData → JsonNote
  json_of note = record {
    secret = decimal note.secret;
    nullifier = decimal note.nullifier;
    amount = decimal note.amount;
    token_mint = note.token_mint;
    ephemeral_pubkey = byte_digits note.ephemeral_pubkey;
  }

  unfoldable pub serialize_note : DepositNoteData → Bytes
  serialize_note note = to_json (json_of note)

  -- The numbers of a parsed note: `BigInt` throws at a text that is no number.
  unfoldable pub note_of : JsonNote → Option ℕ → Option ℕ → Option ℕ → Option DepositNoteData
  note_of json (some secret) (some nullifier) (some amount) = some (record {
    secret = secret;
    nullifier = nullifier;
    amount = amount;
    token_mint = json.token_mint;
    ephemeral_pubkey = from_hex json.ephemeral_pubkey;
  })
  note_of json none nullifier amount = none
  note_of json (some secret) none amount = none
  note_of json (some secret) (some nullifier) none = none

  unfoldable pub deserialize_note : Bytes → Option DepositNoteData
  deserialize_note bytes = elim (from_json bytes) [
    | none ↦ none
    | some json ↦ note_of json (big_int json.secret) (big_int json.nullifier) (big_int json.amount)
  ]

  -- The four parts one behind the other, for a public key of 32 bytes and a nonce of 12.
  unfoldable pub encrypt_note : Bytes → DepositNoteData → Bytes → Bytes
  encrypt_note nonce note secret =
      let key = derive_note_key secret in
      let ciphertext = xor_cipher (serialize_note note) key nonce in
      note.ephemeral_pubkey ++ (nonce ++ (ciphertext ++ compute_tag key nonce ciphertext))

  pub data Decrypted : Type 0 where
    too_short bad_tag bad_note : Decrypted
    decrypted : DepositNoteData → Decrypted

  unfoldable pub decrypt_note : Bytes → Bytes → Decrypted
  decrypt_note encrypted scan_privkey =
      let rest = drop 32 encrypted in
      let key = derive_note_key (shared_secret scan_privkey (slice 0 32 encrypted)) in
      let nonce = slice 0 12 rest in
      let ciphertext = slice 12 (length rest - 16) rest in
      let tag = drop (length rest - 16) rest in
      if ltb (length encrypted) 61
      then too_short
      else (if constant_time_equal tag (compute_tag key nonce ciphertext)
          then (elim (deserialize_note (xor_cipher ciphertext key nonce)) [
            | none ↦ bad_note
            | some note ↦ decrypted note
          ])
          else bad_tag)

  -- The shared secret and the deposit tag, by the sender with the private key of a new pair.
  unfoldable pub derive_stealth_address : Bytes → Bytes → ℕ → Bytes × Bytes
  derive_stealth_address ephemeral_privkey scan_pubkey deposit_index =
      let secret = shared_secret ephemeral_privkey scan_pubkey in
      (secret, sha256 (secret ++ le_bytes 4 deposit_index))

  -- The same by the recipient, from the public key of that pair.
  unfoldable pub recover_stealth_spend_key : Bytes → Bytes → ℕ → Bytes × Bytes
  recover_stealth_spend_key scan_privkey ephemeral_pubkey deposit_index =
      let secret = shared_secret scan_privkey ephemeral_pubkey in
      (secret, sha256 (secret ++ le_bytes 4 deposit_index))
