-- ===== src/Names/Resolver.antt =====
-- apps/gateway/src/services/name-resolver.ts. The chain's answers, the derivation of addresses and the
-- loading of the hash's library are arguments.
use skaus.Prelude.{ℕ, String, Option, none, some, List, [], ◌∷◌, str_eq, if◌then◌else◌}
use skaus.Prelude.Bytes.{Bytes}
use skaus.Names.Validity.{utf8}
use skaus.Names.Hash.{hash_name}
use skaus.Names.Record.{ResolvedName, active, deserialize_resolved_name}

-- `getAccountInfo`: an error, no account, or an account's data.
pub data Account : Type 0 where
  unreachable missing : Account
  account : Bytes → Account

-- `poseidon` is `none` if its library cannot be loaded.
pub record Network : Type 0 where
  pub lower : String → String
  pub poseidon : Option (List ℕ → ℕ)
  pub base58 : Bytes → String
  pub program_address : List Bytes → Bytes
  pub get_account : Bytes → Account

abbrev pub name_seed : Bytes
name_seed = utf8 "name"

-- Whatever fails is answered by `null`.
unfoldable pub resolve_account : (Bytes → String) → Account → Option ResolvedName
resolve_account base58 unreachable = none
resolve_account base58 missing = none
resolve_account base58 (account bytes) = deserialize_resolved_name base58 bytes

unfoldable pub resolve_name_hash : Network → Bytes → Option ResolvedName
resolve_name_hash net hash =
    resolve_account net.base58 (net.get_account (net.program_address (name_seed ∷ hash ∷ [])))

abbrev mock : String → String → ResolvedName
mock scan spend = record {
  authority = "11111111111111111111111111111111";
  name_hash = "mock";
  scan_pubkey = scan;
  spend_pubkey = spend;
  version = some 1;
  profile_cid = none;
  deposit_index = 0;
  status = active;
}

-- `mocks[username.toLowerCase()] || null`
unfoldable pub resolve_mock_username : String → Option ResolvedName
resolve_mock_username key =
    if str_eq key "alice"
    then some (mock "mock_scan_pubkey_alice" "mock_spend_pubkey_alice")
    else if str_eq key "bob"
    then some (mock "mock_scan_pubkey_bob" "mock_spend_pubkey_bob")
    else none

unfoldable pub resolve_username : Network → String → Option ResolvedName
resolve_username net username = elim net.poseidon [
  | none ↦ resolve_mock_username (net.lower username)
  | some poseidon ↦ resolve_name_hash net (hash_name net.lower poseidon username)
]
