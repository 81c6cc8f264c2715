-- ===== src/Notes/Tests.antt =====
-- A run of the credentials with primitives that have the laws they rely on.
use skaus.Prelude.{◌≡◌, refl, some, none, [], ◌∷◌, replicate, arith}
use skaus.Prelude.Bytes.{Bytes}
use skaus.Withdraw.Hex.{byte_digits}
use skaus.Notes.Encryption.{Primitives}
use skaus.Notes.Viewing.{
  ViewingScope, CredentialTexts, opened, credential_for, decrypt_viewing_credential,
  issue_viewing_credential, derive_scoped_key,
}
use skaus.Notes.Viewing.Issued.{IsReadable, decrypt_viewing_credential-issued}

abbrev key32 : Bytes
key32 = replicate 32 9

-- One key and one hash.
abbrev primitives : Primitives
primitives = record {
  sha256 = λ bs. replicate 32 7;
  public_key = λ k. key32;
  shared_secret = λ a b. b;
  to_json = λ j. 1 ∷ [];
  from_json = λ bs. none;
  decimal = λ n. "5";
  big_int = λ s. some 5;
  domain = 3 ∷ [];
}

-- One credential.
abbrev texts : CredentialTexts
texts = record {
  hkdf = λ key info. replicate 32 6;
  encode = λ s. 4 ∷ [];
  to_json = λ j. 1 ∷ 2 ∷ 255 ∷ [];
  from_json = λ bs. some (record {
    scoped_key = byte_digits (replicate 32 6);
    start_time = 1;
    end_time = 2;
    token_mints = some ("mint" ∷ []);
    max_amount = some "5";
    issued_to = byte_digits key32;
    issued_at = 1_700_000_000;
  });
}

abbrev scope : ViewingScope
scope = record {
  start_time = 1;
  end_time = 2;
  token_mints = some ("mint" ∷ []);
  max_amount = some 5;
}

readable :
    IsReadable primitives texts (credential_for primitives texts (2 ∷ []) key32 scope 1_700_000_000)
unfolding derive_scoped_key
readable = record { json = refl; bytes = omega arith; amount = λ a h. h }

decrypt_viewing_credential-issued_example :
    decrypt_viewing_credential primitives texts
      (issue_viewing_credential primitives texts
        (1 ∷ [])
        (replicate 12 8)
        1_700_000_000
        (2 ∷ [])
        key32
        scope)
      (5 ∷ [])
    ≡ opened (credential_for primitives texts (2 ∷ []) key32 scope 1_700_000_000)
decrypt_viewing_credential-issued_example =
    decrypt_viewing_credential-issued primitives texts (λ a b. refl) (λ bs. refl) (1 ∷ []) (5 ∷ [])
      (replicate 12 8) (2 ∷ []) 1_700_000_000 scope readable refl
