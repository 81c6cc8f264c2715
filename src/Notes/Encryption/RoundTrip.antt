-- ===== src/Notes/Encryption/RoundTrip.antt =====
-- A note that is encrypted for a recipient is read back with the recipient's scan key.
use native.Mathlib.Nat.{pow-suc}
use skaus.Prelude.{
  ℕ, zero, suc, ◌+◌, ◌-◌, ◌*◌, ◌/◌, ◌%◌, ◌^◌, ◌≤◌, ◌<◌, ◌≡◌, refl, ap, ◌∙◌, true, false, some, [],
  ◌∷◌, ◌++◌, ltb, ==_iff, ge→ltb, length, drop, All, arith, length-append, take-append, drop-append,
  length-take,
}
use skaus.Prelude.Bytes.{Bytes, slice, le_bytes}
use skaus.Withdraw.Hex.{byte_digits, from_hex}
use skaus.Notes.Encryption.Parts.{slice-ciphertext, drop-tag}
use skaus.Notes.Encryption.{
  DepositNoteData, Primitives, bit_xor, bit_or, differences, constant_time_equal, byte_at,
  derive_note_key, xor_from, xor_cipher, compute_tag, json_of, serialize_note, note_of,
  deserialize_note, encrypt_note, decrypted, decrypt_note, derive_stealth_address,
  recover_stealth_spend_key,
}

bit_xor-bit_xor : (w a b : ℕ) → a < 2 ^ w → bit_xor w (bit_xor w a b) b ≡ a
unfolding bit_xor
bit_xor-bit_xor zero a b h = omega arith
bit_xor-bit_xor (suc w) a b h =
    let rest = bit_xor w (a / 2) (b / 2) in
    let below : a < 2 ^ w * 2 = rw (← pow-suc 2 w) h in
    let halved : ((a % 2 + b % 2) % 2 + 2 * rest) / 2 ≡ rest = omega arith in
    let again = bit_xor-bit_xor w (a / 2) (b / 2) (omega arith) in rw (halved, again) (omega arith)

bit_xor-same : (w a : ℕ) → bit_xor w a a ≡ 0
unfolding bit_xor
bit_xor-same zero a = refl
bit_xor-same (suc w) a = omega (arith, bit_xor-same w (a / 2))

no_bits : bit_or 8 0 0 ≡ 0
unfolding bit_or
no_bits = refl

differences-same : (a : Bytes) → differences 0 a a ≡ 0
unfolding differences
differences-same [] = refl
differences-same (b ∷ a) = rw (bit_xor-same 8 b, no_bits) (differences-same a)

pub constant_time_equal-same : (a : Bytes) → constant_time_equal a a ≡ true
unfolding constant_time_equal
constant_time_equal-same a = rw ((==_iff (length a) (length a)).1 refl, differences-same a) refl

pub from_hex-byte_digits : (bs : Bytes) → from_hex (byte_digits bs) ≡ bs
unfolding from_hex byte_digits
from_hex-byte_digits [] = refl
from_hex-byte_digits (b ∷ bs) =
    let same : b / 16 * 16 + b % 16 ≡ b = omega arith in rw (same, from_hex-byte_digits bs) refl

module _ (p : Primitives) where
  open p use {sha256, public_key, shared_secret, to_json, from_json, decimal, big_int}

  pub xor_from-xor_from :
      (key nonce : Bytes) (i : ℕ) (bs : Bytes)
      → All (λ b. b < 256) bs
      → xor_from p key nonce i (xor_from p key nonce i bs) ≡ bs
  unfolding xor_from
  xor_from-xor_from key nonce i [] h = refl
  xor_from-xor_from key nonce i (b ∷ bs) (k, h) =
      let stream = sha256 (key ++ (nonce ++ le_bytes 4 i)) in
      rw (bit_xor-bit_xor 8 b (byte_at stream (i % 32)) k, xor_from-xor_from key nonce (i + 1) bs h)
        refl

  length-xor_from :
      (key nonce : Bytes) (i : ℕ) (bs : Bytes) → length (xor_from p key nonce i bs) ≡ length bs
  unfolding xor_from
  length-xor_from key nonce i [] = refl
  length-xor_from key nonce i (b ∷ bs) = ap suc (length-xor_from key nonce (i + 1) bs)

  -- The texts of a note are read back: its JSON, and the decimal texts of its numbers.
  pub record IsReadBack (note : DepositNoteData) : Type 0 where
    pub json : from_json (to_json (json_of p note)) ≡ some (json_of p note)
    pub bytes : All (λ b. b < 256) (to_json (json_of p note))
    pub not_empty : 1 ≤ length (to_json (json_of p note))
    pub secret : big_int (decimal note.secret) ≡ some note.secret
    pub nullifier : big_int (decimal note.nullifier) ≡ some note.nullifier
    pub amount : big_int (decimal note.amount) ≡ some note.amount

  deserialize_note-serialize_note :
      (note : DepositNoteData)
      → IsReadBack note
      → deserialize_note p (serialize_note p note) ≡ some note
  unfolding deserialize_note serialize_note note_of
  deserialize_note-serialize_note note h =
      rw
        (
          deserialize_note,
          serialize_note,
          h.json,
          h.secret,
          h.nullifier,
          h.amount,
          from_hex-byte_digits note.ephemeral_pubkey,
        )
        refl

  decrypt_note-reads :
      (encrypted ephemeral rest nonce ciphertext tag scan_privkey : Bytes) (note : DepositNoteData)
      → let key = derive_note_key p (shared_secret scan_privkey ephemeral) in
        ltb (length encrypted) 61 ≡ false
        → slice 0 32 encrypted ≡ ephemeral
        → drop 32 encrypted ≡ rest
        → slice 0 12 rest ≡ nonce
        → slice 12 (length rest - 16) rest ≡ ciphertext
        → drop (length rest - 16) rest ≡ tag
        → constant_time_equal tag (compute_tag p key nonce ciphertext) ≡ true
        → deserialize_note p (xor_cipher p ciphertext key nonce) ≡ some note
        → decrypt_note p encrypted scan_privkey ≡ decrypted note
  unfolding decrypt_note
  decrypt_note-reads encrypted ephemeral rest nonce ciphertext tag scan_privkey note a b c d e f g
        h =
      rw (a, b, c, d, e, f, g, h) refl

  parts-length :
      (ephemeral nonce ciphertext tag : Bytes)
      → length ephemeral ≡ 32
      → length nonce ≡ 12
      → 1 ≤ length ciphertext
      → length tag ≡ 16
      → ltb (length (ephemeral ++ (nonce ++ (ciphertext ++ tag)))) 61 ≡ false
  parts-length ephemeral nonce ciphertext tag a b c d =
      let whole = length-append ephemeral (nonce ++ (ciphertext ++ tag)) in
      let rest = length-append nonce (ciphertext ++ tag) in
      let last = length-append ciphertext tag in ge→ltb _ 61 (omega (arith, whole, rest, last))

  pub length-compute_tag :
      (key nonce ciphertext : Bytes)
      → ((bs : Bytes) → length (sha256 bs) ≡ 32)
      → length (compute_tag p key nonce ciphertext) ≡ 16
  unfolding compute_tag
  length-compute_tag key nonce ciphertext hash =
      let block = key ++ (nonce ++ ciphertext) in
      omega (arith, length-take 16 (sha256 block), hash block)

  decrypt_note-parts :
      (ephemeral nonce ciphertext tag scan_privkey : Bytes) (note : DepositNoteData)
      → let key = derive_note_key p (shared_secret scan_privkey ephemeral) in
        length ephemeral ≡ 32
        → length nonce ≡ 12
        → 1 ≤ length ciphertext
        → length tag ≡ 16
        → tag ≡ compute_tag p key nonce ciphertext
        → deserialize_note p (xor_cipher p ciphertext key nonce) ≡ some note
        → decrypt_note p (ephemeral ++ (nonce ++ (ciphertext ++ tag))) scan_privkey ≡ decrypted note
  decrypt_note-parts ephemeral nonce ciphertext tag scan_privkey note a b c d e f =
      let rest = nonce ++ (ciphertext ++ tag) in
      let encrypted = ephemeral ++ rest in
      let long = parts-length ephemeral nonce ciphertext tag a b c d in
      decrypt_note-reads encrypted ephemeral rest nonce ciphertext tag scan_privkey note long
        (take-append 32 ephemeral rest a) (drop-append 32 ephemeral rest a)
        (take-append 12 nonce (ciphertext ++ tag) b) (slice-ciphertext nonce ciphertext tag b d)
        (drop-tag nonce ciphertext tag b d) (rw (← e) (constant_time_equal-same tag)) f

  module _ (agree : (a b : Bytes) → shared_secret a (public_key b) ≡ shared_secret b (public_key a))
      (keys : (k : Bytes) → length (public_key k) ≡ 32)
      (hash : (bs : Bytes) → length (sha256 bs) ≡ 32) where
    -- If the two sides of the key exchange agree, public keys and hashes have 32 bytes, and the texts
    -- of a note are read back as they were written: the note with a new public key, encrypted under the
    -- secret of the sender with a nonce of 12 bytes, is decrypted to that note by the recipient's scan
    -- key, and both sides have the same secret and deposit tag.
    pub decrypt_note-encrypt_note :
        (r s nonce : Bytes) (index : ℕ) (note : DepositNoteData)
        → IsReadBack note
        → length nonce ≡ 12
        → note.ephemeral_pubkey ≡ public_key r
        → let sender = derive_stealth_address p r (public_key s) index in
          (decrypt_note p (encrypt_note p nonce note sender.0) s ≡ decrypted note)
          × (recover_stealth_spend_key p s note.ephemeral_pubkey index ≡ sender)
    unfolding encrypt_note derive_stealth_address recover_stealth_spend_key serialize_note
        xor_cipher
    decrypt_note-encrypt_note r s nonce index note texts b e =
        let ephemeral = note.ephemeral_pubkey in
        let same : shared_secret s ephemeral ≡ shared_secret r (public_key s) =
          ap (shared_secret s) e ∙ agree s r in
        let key = derive_note_key p (shared_secret s ephemeral) in
        let plain = serialize_note p note in
        let ciphertext = xor_cipher p plain key nonce in
        let parts =
          decrypt_note-parts ephemeral nonce ciphertext (compute_tag p key nonce ciphertext) s note
            (ap length e ∙ keys r) b
            (omega (arith, length-xor_from key nonce 0 plain, texts.not_empty))
            (length-compute_tag key nonce ciphertext hash) refl
            (ap (deserialize_note p) (xor_from-xor_from key nonce 0 plain texts.bytes)
              ∙ deserialize_note-serialize_note note texts) in
        (rw (← same) parts, rw same refl)
