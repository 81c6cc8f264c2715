-- ===== src/Notes/Viewing/Issued.antt =====
-- A credential that is issued to an auditor is read with the auditor's key.
use skaus.Prelude.{
  ℕ, ◌-◌, ◌<◌, ◌≡◌, refl, ap, ◌∙◌, true, Option, none, some, ◌++◌, length, drop, All, take-append,
}
use skaus.Prelude.Bytes.{Bytes, slice}
use skaus.Notes.Encryption.{Primitives, constant_time_equal, xor_cipher, compute_tag}
use skaus.Notes.Encryption.Parts.{slice-ciphertext, drop-tag}
use skaus.Notes.Encryption.RoundTrip.{
  constant_time_equal-same, from_hex-byte_digits, xor_from-xor_from, length-compute_tag,
}
use skaus.Notes.Viewing.{
  ViewingScope, ViewingCredential, EncryptedCredential, CredentialTexts, opened, json_of_credential,
  serialize_credential, read_amount, credential_of, deserialize_credential, auditor_key,
  encrypt_for_auditor, decrypt_viewing_credential, credential_for, issue_viewing_credential,
  written_amount,
}

module _ (p : Primitives) (x : CredentialTexts) where
  open p use {sha256, public_key, shared_secret, decimal, big_int}
  open x use {to_json, from_json}

  -- The texts of a credential are read back: its JSON, and the decimal text of its amount.
  pub record IsReadable (c : ViewingCredential) : Type 0 where
    pub json : from_json (to_json (json_of_credential p x c)) ≡ some (json_of_credential p x c)
    pub bytes : All (λ b. b < 256) (to_json (json_of_credential p x c))
    pub amount : (a : ℕ) → c.scope.max_amount ≡ some a → big_int (decimal a) ≡ some a

  read_amount-written_amount :
      (o : Option ℕ)
      → ((a : ℕ) → o ≡ some a → big_int (decimal a) ≡ some a)
      → read_amount p x (written_amount p x o) ≡ some o
  unfolding read_amount
  read_amount-written_amount none h = refl
  read_amount-written_amount (some a) h = rw (h a refl) refl

  deserialize-serialize :
      (c : ViewingCredential)
      → IsReadable c
      → deserialize_credential p x (serialize_credential p x c) ≡ some c
  unfolding deserialize_credential serialize_credential credential_of
  deserialize-serialize c h =
      rw
        (
          deserialize_credential,
          serialize_credential,
          h.json,
          read_amount-written_amount c.scope.max_amount h.amount,
          from_hex-byte_digits c.scoped_key,
          from_hex-byte_digits c.issued_to,
        )
        refl

  decrypt-reads :
      (c : EncryptedCredential) (nonce encrypted tag auditor_privkey : Bytes)
      (credential : ViewingCredential)
      → let key = auditor_key p x (shared_secret auditor_privkey c.ephemeral_pubkey) in
        slice 0 12 c.ciphertext ≡ nonce
        → slice 12 (length c.ciphertext - 16) c.ciphertext ≡ encrypted
        → drop (length c.ciphertext - 16) c.ciphertext ≡ tag
        → constant_time_equal tag (compute_tag p key nonce encrypted) ≡ true
        → deserialize_credential p x (xor_cipher p encrypted key nonce) ≡ some credential
        → decrypt_viewing_credential p x c auditor_privkey ≡ opened credential
  unfolding decrypt_viewing_credential
  decrypt-reads c nonce encrypted tag auditor_privkey credential a b d e f = rw (a, b, d, e, f) refl

  module _ (agree : (a b : Bytes) → shared_secret a (public_key b) ≡ shared_secret b (public_key a))
      (hash : (bs : Bytes) → length (sha256 bs) ≡ 32) where
    -- If the two sides of the key exchange agree, hashes have 32 bytes, and the texts of the credential
    -- are read back: what is issued with a nonce of 12 bytes to the public key of an auditor is opened
    -- by the auditor's key to the credential with the scoped key, the scope, the auditor's public key
    -- and the time of the issue.
    pub decrypt_viewing_credential-issued :
        (r s nonce view_key : Bytes) (now : ℕ) (scope : ViewingScope)
        → let credential = credential_for p x view_key (public_key s) scope now in
          IsReadable credential
          → length nonce ≡ 12
          → decrypt_viewing_credential p x
              (issue_viewing_credential p x r nonce now view_key (public_key s) scope)
              s
            ≡ opened credential
    unfolding issue_viewing_credential encrypt_for_auditor serialize_credential xor_cipher
    decrypt_viewing_credential-issued r s nonce view_key now scope texts b =
        let credential = credential_for p x view_key (public_key s) scope now in
        let issued = issue_viewing_credential p x r nonce now view_key (public_key s) scope in
        let plain = serialize_credential p x credential in
        let sender = auditor_key p x (shared_secret r (public_key s)) in
        let key = auditor_key p x (shared_secret s (public_key r)) in
        let same : sender ≡ key = ap (auditor_key p x) (agree r s) in
        let encrypted = xor_cipher p plain sender nonce in
        let tag = compute_tag p sender nonce encrypted in
        let d = length-compute_tag p sender nonce encrypted hash in
        decrypt-reads issued nonce encrypted tag s credential
          (take-append 12 nonce (encrypted ++ tag) b) (slice-ciphertext nonce encrypted tag b d)
          (drop-tag nonce encrypted tag b d) (rw (← same) (constant_time_equal-same tag))
          (rw (← same) (
            ap (deserialize_credential p x) (xor_from-xor_from p sender nonce 0 plain texts.bytes)
            ∙ deserialize-serialize credential texts))
