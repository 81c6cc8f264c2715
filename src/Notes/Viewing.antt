-- ===== src/Notes/Viewing.antt =====
-- packages/crypto/src/viewing-key.ts: credentials for auditors, sealed with the cipher and the tag of
-- packages/crypto/src/encryption.ts. HKDF and the text of JSON are arguments; random bytes and the
-- clock are arguments of the issue.
pub mod Issued
use Prim.Native.String.{◌++◌ as append}
use skaus.Prelude.{
  ℕ, ◌-◌, String, Bool, true, false, Option, none, some, List, [], ◌∷◌, ◌++◌, if◌then◌else◌, length,
  drop,
}
use skaus.Prelude.Bytes.{Bytes, slice}
use skaus.Withdraw.Hex.{byte_digits, from_hex}
use skaus.Notes.Encryption.{Primitives, constant_time_equal, xor_cipher, compute_tag}

pub record ViewingScope : Type 0 where
  pub start_time : ℕ
  pub end_time : ℕ
  pub token_mints : Option (List String)
  pub max_amount : Option ℕ

pub record ViewingCredential : Type 0 where
  pub scoped_key : Bytes
  pub scope : ViewingScope
  pub issued_to : Bytes
  pub issued_at : ℕ

pub record EncryptedCredential : Type 0 where
  pub ephemeral_pubkey : Bytes
  pub ciphertext : Bytes
  pub issued_at : ℕ

-- The object that is written as JSON, with the bytes as hexadecimal digits and the amount as a text.
pub record JsonCredential : Type 0 where
  pub scoped_key : List ℕ
  pub start_time : ℕ
  pub end_time : ℕ
  pub token_mints : Option (List String)
  pub max_amount : Option String
  pub issued_to : List ℕ
  pub issued_at : ℕ

pub record CredentialTexts : Type 0 where
  pub hkdf : Bytes → Bytes → Bytes
  pub encode : String → Bytes
  pub to_json : JsonCredential → Bytes
  pub from_json : Bytes → Option JsonCredential

-- `tokenMints.join(',')`
unfoldable pub join_commas : List String → String
join_commas [] = ""
join_commas (mint ∷ []) = mint
join_commas (mint ∷ next ∷ rest) = append mint (append "," (join_commas (next ∷ rest)))

pub data OpenedCredential : Type 0 where
  bad_tag bad_credential : OpenedCredential
  opened : ViewingCredential → OpenedCredential

module _ (p : Primitives) (x : CredentialTexts) where
  open p use {sha256, public_key, shared_secret, decimal, big_int}
  open x use {hkdf, encode, to_json, from_json}

  abbrev mints_text : Option (List String) → String
  mints_text none = ""
  mints_text (some mints) = join_commas mints

  abbrev scope_amount_text : Option ℕ → String
  scope_amount_text none = ""
  scope_amount_text (some amount) = decimal amount

  unfoldable pub scope_text : ViewingScope → String
  scope_text s = append "skaus-view-scope:" (
      append (decimal s.start_time) (
        append ":" (
          append (decimal s.end_time) (
            append ":"
              (append (mints_text s.token_mints) (append ":" (scope_amount_text s.max_amount)))))))

  unfoldable pub derive_scoped_key : Bytes → ViewingScope → Bytes
  derive_scoped_key view_key scope = hkdf view_key (sha256 (encode (scope_text scope)))

  abbrev pub written_amount : Option ℕ → Option String
  written_amount none = none
  written_amount (some amount) = some (decimal amount)

  abbrev pub json_of_credential : ViewingCredential → JsonCredential
  json_of_credential c = record {
    scoped_key = byte_digits c.scoped_key;
    start_time = c.scope.start_time;
    end_time = c.scope.end_time;
    token_mints = c.scope.token_mints;
    max_amount = written_amount c.scope.max_amount;
    issued_to = byte_digits c.issued_to;
    issued_at = c.issued_at;
  }

  unfoldable pub serialize_credential : ViewingCredential → Bytes
  serialize_credential c = to_json (json_of_credential c)

  -- `BigInt(obj.scope.maxAmount)`, which throws at a text that is no number: the outer `none`.
  unfoldable pub read_amount : Option String → Option (Option ℕ)
  read_amount none = some none
  read_amount (some text) = elim (big_int text) [ none ↦ none | some amount ↦ some (some amount) ]

  unfoldable pub credential_of : JsonCredential → Option (Option ℕ) → Option ViewingCredential
  credential_of json none = none
  credential_of json (some max_amount) = some (record {
    scoped_key = from_hex json.scoped_key;
    scope = record {
      start_time = json.start_time;
      end_time = json.end_time;
      token_mints = json.token_mints;
      max_amount = max_amount;
    };
    issued_to = from_hex json.issued_to;
    issued_at = json.issued_at;
  })

  unfoldable pub deserialize_credential : Bytes → Option ViewingCredential
  deserialize_credential bytes = elim (from_json bytes) [
    | none ↦ none
    | some json ↦ credential_of json (read_amount json.max_amount)
  ]

  -- `sha256(rawSecret || 'skaus_viewing_key')`
  unfoldable pub auditor_key : Bytes → Bytes
  auditor_key secret = sha256 (secret ++ encode "skaus_viewing_key")

  unfoldable pub encrypt_for_auditor : Bytes → Bytes → Bytes → Bytes → Bytes × Bytes
  encrypt_for_auditor ephemeral_privkey nonce payload auditor_pubkey =
      let key = auditor_key (shared_secret ephemeral_privkey auditor_pubkey) in
      let encrypted = xor_cipher p payload key nonce in
      (public_key ephemeral_privkey, nonce ++ (encrypted ++ compute_tag p key nonce encrypted))

  -- A message of less than 16 bytes has a shorter tag, which does not pass.
  unfoldable pub decrypt_viewing_credential : EncryptedCredential → Bytes → OpenedCredential
  decrypt_viewing_credential c auditor_privkey =
      let key = auditor_key (shared_secret auditor_privkey c.ephemeral_pubkey) in
      let nonce = slice 0 12 c.ciphertext in
      let encrypted = slice 12 (length c.ciphertext - 16) c.ciphertext in
      let tag = drop (length c.ciphertext - 16) c.ciphertext in
      if constant_time_equal tag (compute_tag p key nonce encrypted)
      then elim (deserialize_credential (xor_cipher p encrypted key nonce)) [
        | none ↦ bad_credential
        | some credential ↦ opened credential
      ]
      else bad_tag

  abbrev pub credential_for : Bytes → Bytes → ViewingScope → ℕ → ViewingCredential
  credential_for view_key auditor_pubkey scope now = record {
    scoped_key = derive_scoped_key view_key scope;
    scope = scope;
    issued_to = auditor_pubkey;
    issued_at = now;
  }

  unfoldable pub issue_viewing_credential :
      Bytes → Bytes → ℕ → Bytes → Bytes → ViewingScope → EncryptedCredential
  issue_viewing_credential ephemeral_privkey nonce now view_key auditor_pubkey scope =
      let payload = serialize_credential (credential_for view_key auditor_pubkey scope now) in
      let sealed = encrypt_for_auditor ephemeral_privkey nonce payload auditor_pubkey in
      record { ephemeral_pubkey = sealed.0; ciphertext = sealed.1; issued_at = now }
