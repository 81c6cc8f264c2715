-- ===== src/Names/Record.antt =====
-- `deserializeNameRecord` of apps/gateway/src/services/name-indexer.ts and of
-- apps/gateway/src/services/name-resolver.ts. `base58` is an argument; `Number` is exact below
-- 2 ^ 53 and is not rounded here.
pub mod Layout
pub mod Readers
use skaus.Prelude.{ℕ, String, Option, none, some, if◌then◌else◌, ◌==◌, leb, length, get_elem?}
use skaus.Prelude.Bytes.{Bytes, slice, of_le}
use skaus.Indexer.Events.{ℤ, read_i64}

pub data NameStatus : Type 0 where
  active suspended expired : NameStatus

-- `statusMap[statusByte] ?? 'active'`; a byte behind the end is `undefined`.
unfoldable pub status_of : Option ℕ → NameStatus
status_of none = active
status_of (some b) = if b == 1 then suspended else if b == 2 then expired else active

-- The content identifier: its bytes stand behind the tag, and are read if the tag is 1.
unfoldable pub profile_cid_of : (Bytes → String) → Option ℕ → Bytes → Option String
profile_cid_of base58 none cid = none
profile_cid_of base58 (some tag) cid = if tag == 1 then some (base58 cid) else none

pub record NameEvent : Type 0 where
  pub name_hash : String
  pub authority : String
  pub scan_pubkey : String
  pub spend_pubkey : String
  pub version : Option ℕ
  pub profile_cid : Option String
  pub status : NameStatus
  pub updated_at : ℤ
  pub tx_signature : String

-- The indexer's. The read of the time throws behind the end, which gives `null`.
unfoldable pub deserialize_name_event : (Bytes → String) → Bytes → String → Option NameEvent
deserialize_name_event base58 bytes signature =
    if leb 194 (length bytes)
    then some (record {
      name_hash = base58 (slice 40 72 bytes);
      authority = base58 (slice 8 40 bytes);
      scan_pubkey = base58 (slice 72 104 bytes);
      spend_pubkey = base58 (slice 104 136 bytes);
      version = get_elem? bytes 136;
      profile_cid = profile_cid_of base58 (get_elem? bytes 137) (slice 138 170 bytes);
      status = status_of (get_elem? bytes 194);
      updated_at = read_i64 (slice 186 194 bytes);
      tx_signature = signature;
    })
    else none

pub record ResolvedName : Type 0 where
  pub authority : String
  pub name_hash : String
  pub scan_pubkey : String
  pub spend_pubkey : String
  pub version : Option ℕ
  pub profile_cid : Option String
  pub deposit_index : ℕ
  pub status : NameStatus

-- The resolver's. The read of the index throws behind the end, which its caller answers by `null`.
unfoldable pub deserialize_resolved_name : (Bytes → String) → Bytes → Option ResolvedName
deserialize_resolved_name base58 bytes =
    if leb 178 (length bytes)
    then some (record {
      authority = base58 (slice 8 40 bytes);
      name_hash = base58 (slice 40 72 bytes);
      scan_pubkey = base58 (slice 72 104 bytes);
      spend_pubkey = base58 (slice 104 136 bytes);
      version = get_elem? bytes 136;
      profile_cid = profile_cid_of base58 (get_elem? bytes 137) (slice 138 170 bytes);
      deposit_index = of_le (slice 170 178 bytes);
      status = status_of (get_elem? bytes 194);
    })
    else none
