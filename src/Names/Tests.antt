-- ===== src/Names/Tests.antt =====
-- Runs of the names at concrete inputs.
use skaus.Prelude.{
  ◌≡◌, refl, ◌↔◌, String, true, Option, none, some, List, [], ◌∷◌, replicate, arith, str_eq,
  if◌then◌else◌,
}
use skaus.Prelude.Bytes.{Bytes}
use skaus.Indexer.Events.{pos}
use skaus.Names.Record.{
  NameEvent, active, status_of, deserialize_name_event, deserialize_resolved_name,
}
use skaus.Names.Record.Layout.{Fields, IsSized, name_account}
use skaus.Names.Record.Readers.{deserialize-with_cid, deserialize-without_cid}
use skaus.Names.Validity.{
  accepted, too_short, bad_prefix, bad_characters, reserved, utf8, utf8_char, utf16_length,
  is_name_byte, all_name_chars, all_name_bytes, is_bad_first, has_bad_prefix, has_bad_first_byte,
  includes, validate_name, validate_name_on_chain, is_valid_name,
}
use skaus.Names.Validity.Laws.{validate_name-validate_name_on_chain}
use skaus.Names.Hash.Laws.{name_chunks-injective}
use skaus.Names.Indexer.{NameTable}

abbrev fields : Fields
fields = record {
  discriminator = replicate 8 1;
  authority = replicate 32 2;
  name_hash = replicate 32 3;
  scan = replicate 32 4;
  spend = replicate 32 5;
  version = 1;
  deposit_index = 3;
  created_at = 1_700_000_000;
  updated_at = 1_700_000_001;
  status = 1;
  bump = 255;
}

fields-IsSized : IsSized fields
fields-IsSized = record {
  discriminator_size = refl;
  authority_size = refl;
  name_hash_size = refl;
  scan_size = refl;
  spend_size = refl;
  deposit_index_range = omega arith;
  updated_at_range = omega arith;
}

abbrev base58 : Bytes → String
base58 bytes = "base58"

abbrev cid : Bytes
cid = replicate 32 9

deserialize-with_cid_example :
    (deserialize_name_event base58 (name_account fields (some cid)) "sig"
      ≡ some (record {
        name_hash = "base58";
        authority = "base58";
        scan_pubkey = "base58";
        spend_pubkey = "base58";
        version = some 1;
        profile_cid = some "base58";
        status = status_of (some 1);
        updated_at = pos 1_700_000_001;
        tx_signature = "sig";
      }))
    × (deserialize_resolved_name base58 (name_account fields (some cid))
        ≡ some (record {
          authority = "base58";
          name_hash = "base58";
          scan_pubkey = "base58";
          spend_pubkey = "base58";
          version = some 1;
          profile_cid = some "base58";
          deposit_index = 3;
          status = status_of (some 1);
        }))
deserialize-with_cid_example = deserialize-with_cid base58 "sig" fields cid fields-IsSized refl

deserialize-without_cid_example :
    (deserialize_name_event base58 (name_account fields none) "sig"
      ≡ some (record {
        name_hash = "base58";
        authority = "base58";
        scan_pubkey = "base58";
        spend_pubkey = "base58";
        version = some 1;
        profile_cid = none;
        status = active;
        updated_at = pos 0;
        tx_signature = "sig";
      }))
    × (deserialize_resolved_name base58 (name_account fields none)
        ≡ some (record {
          authority = "base58";
          name_hash = "base58";
          scan_pubkey = "base58";
          spend_pubkey = "base58";
          version = some 1;
          profile_cid = none;
          deposit_index = 0;
          status = active;
        }))
deserialize-without_cid_example = deserialize-without_cid base58 "sig" fields fields-IsSized

validate_name-validate_name_on_chain_example :
    (validate_name_on_chain "ada_1" ≡ accepted) ↔ (validate_name "ada_1" ≡ accepted)
validate_name-validate_name_on_chain_example = validate_name-validate_name_on_chain "ada_1"

-- The gateway lets a reserved name through that the program refuses.
validity_runs :
    (validate_name "ada_1" ≡ accepted)
    × (validate_name "ad" ≡ too_short)
    × (validate_name "-ada" ≡ bad_prefix)
    × (validate_name "Ada" ≡ bad_characters)
    × (validate_name "admin" ≡ reserved)
    × (validate_name_on_chain "admin" ≡ reserved)
    × (is_valid_name "admin" ≡ true)
unfolding validate_name validate_name_on_chain is_valid_name utf8 utf8_char utf16_length
    is_name_byte all_name_chars all_name_bytes is_bad_first has_bad_prefix has_bad_first_byte
    includes
validity_runs = (refl, refl, refl, refl, refl, refl, refl)

abbrev ab : Bytes
ab = 97 ∷ 98 ∷ []

name_chunks-injective_example : ab ≡ ab
name_chunks-injective_example = name_chunks-injective ab ab (omega arith) (omega arith) refl

abbrev admin : Bytes
admin = replicate 32 2

-- The table as the history of its rows.
abbrev lookup : String → List NameEvent → Option NameEvent
lookup k [] = none
lookup k (e ∷ es) = if str_eq e.name_hash k then some e else lookup k es

lookup-upsert :
    (e : NameEvent) (k : String) (t t' : List NameEvent)
    → some (e ∷ t) ≡ some t'
    → lookup k t' ≡ (if str_eq e.name_hash k then some e else lookup k t)
lookup-upsert e k t t' h = let same : e ∷ t ≡ t' = cc in rw (← same) refl

abbrev names : NameTable
names = record {
  Table = List NameEvent;
  find = lookup;
  upsert = λ e t. some (e ∷ t);
  find-upsert = lookup-upsert;
}
