-- ===== src/Profiles/Store.antt =====
-- apps/gateway/src/services/profile.ts, `compressProfile` and the update's data of
-- apps/gateway/src/services/compression.ts. The table and the calls of the chain are arguments.
pub mod Found
pub mod Stuck
pub mod Link
use skaus.Prelude.{
  ℕ, ◌≡◌, String, Bool, true, false, ◌&&◌, not, Option, none, some, List, [], ◌∷◌, ◌==◌,
  if◌then◌else◌, length, str_eq,
}
use skaus.Prelude.Bytes.{Bytes, concat}
use skaus.Profiles.Codec.{CompressedProfile, ProfileOf, or_empty}

pub record ProfileRow (N : Type 0) : Type 0 where
  pub username : String
  pub name_hash : Option String
  pub compressed_hash : Option String
  pub compressed_on_chain : Bool
  pub stored : CompressedProfile N

-- The table: a write that fails is `none`.
pub record ProfileTable (N : Type 0) : Type 1 where
  pub Table : Type 0
  pub find : String → Table → Option (ProfileRow N)
  pub find_by_hash : String → Table → Option (ProfileRow N)
  pub upsert : ProfileRow N → Table → Option Table
  pub find-upsert :
      (r : ProfileRow N) (k : String) (t t' : Table)
      → upsert r t ≡ some t'
      → find k t' ≡ (if str_eq r.username k then some r else find k t)

-- The chain at the time of a call: whether compression is on and a relayer's key is set, the update of
-- the account at an address and the creation for an authority, each `none` if it threw, the reading of
-- an account.
pub record Light (N : Type 0) : Type 0 where
  pub enabled : Bool
  pub has_relayer : Bool
  pub update : String → CompressedProfile N → Option String
  pub create : String → CompressedProfile N → Option String
  pub read : String → Option (CompressedProfile N)

pub record ProfileCompressionResult : Type 0 where
  pub hash : String
  pub on_chain : Bool
  pub tx_signature : Option String

pub record UpsertResult : Type 0 where
  pub compressed_hash : String
  pub compressed_on_chain : Bool
  pub compression_tx_signature : Option String

-- The instruction of `buildUpdateProfileTx`, from the hash's bytes; another size throws.
unfoldable pub update_profile_data : Bytes → Bytes → Option Bytes
update_profile_data discriminator hash_bytes =
    if length hash_bytes == 32
    then (let profile_cid_data = concat ((1 ∷ []) ∷ hash_bytes ∷ []) in
        some (concat (discriminator ∷ profile_cid_data ∷ [])))
    else none

abbrev pub or_nothing : Option String → String
or_nothing none = ""
or_nothing (some hash) = hash

module _ (address : String → String) where
  abbrev pub off_chain : String → ProfileCompressionResult
  off_chain authority = record { hash = address authority; on_chain = false; tx_signature = none }

  abbrev pub written_at : String → String → Option String → ProfileCompressionResult
  written_at authority hash none = off_chain authority
  written_at authority hash (some signature) = record {
    hash = hash;
    on_chain = true;
    tx_signature = some signature;
  }

module _ {N : Type 0} where
  abbrev pub hash_of_row : Option (ProfileRow N) → Option String
  hash_of_row none = none
  hash_of_row (some row) = row.compressed_hash

  abbrev pub on_chain_of_row : Option (ProfileRow N) → Bool
  on_chain_of_row none = false
  on_chain_of_row (some row) = row.compressed_on_chain

  abbrev name_hash_of : Option String → Option (ProfileRow N) → Option String
  name_hash_of (some hash) existing = some hash
  name_hash_of none none = none
  name_hash_of none (some row) = row.name_hash

  -- The row that the `upsert` leaves: the hash and the flag are kept if nothing was compressed.
  unfoldable pub upserted_row :
      String
      → CompressedProfile N
      → Option String
      → Option (ProfileRow N)
      → Option ProfileCompressionResult
      → ProfileRow N
  upserted_row key p name_hash existing none = record {
    username = key;
    name_hash = name_hash_of name_hash existing;
    compressed_hash = hash_of_row existing;
    compressed_on_chain = on_chain_of_row existing;
    stored = record p { avatar_uri = some (or_empty p.avatar_uri) };
  }
  upserted_row key p name_hash existing (some c) = record {
    username = key;
    name_hash = name_hash_of name_hash existing;
    compressed_hash = some c.hash;
    compressed_on_chain = c.on_chain;
    stored = record p { avatar_uri = some (or_empty p.avatar_uri) };
  }

  unfoldable pub upsert_result :
      Option (ProfileRow N) → Option ProfileCompressionResult → UpsertResult
  upsert_result existing none = record {
    compressed_hash = or_nothing (hash_of_row existing);
    compressed_on_chain = on_chain_of_row existing;
    compression_tx_signature = none;
  }
  upsert_result existing (some c) = record {
    compressed_hash = c.hash;
    compressed_on_chain = c.on_chain;
    compression_tx_signature = c.tx_signature;
  }

module _ {N : Type 0} (address : String → String) where
  -- `compressProfile`: `address` is `computeAccountHash`, the address of the account for an authority.
  unfoldable pub compress_profile :
      Light N → CompressedProfile N → Option String → String → ProfileCompressionResult
  compress_profile light p none authority =
      if light.enabled && light.has_relayer
      then written_at address authority (address authority) (light.create authority p)
      else off_chain address authority
  compress_profile light p (some existing) authority =
      if light.enabled && light.has_relayer
      then (if str_eq existing ""
          then written_at address authority (address authority) (light.create authority p)
          else written_at address authority existing (light.update existing p))
      else off_chain address authority

  module _ (m : ProfileTable N) (lower : String → String) where
    open m use {Table, find, find_by_hash, upsert}

    unfoldable pub compression_of :
        Light N
        → String
        → CompressedProfile N
        → Option String
        → Table
        → Option ProfileCompressionResult
    compression_of light username p none t = none
    compression_of light username p (some authority) t =
        some (compress_profile light p (hash_of_row (find (lower username) t)) authority)

    -- `upsertProfile`: `none` is an exception of the table.
    unfoldable pub upsert_profile :
        Light N
        → String
        → CompressedProfile N
        → Option String
        → Option String
        → Table
        → Option (UpsertResult × Table)
    upsert_profile light username p name_hash authority t =
        let key = lower username in
        let compression = compression_of light username p authority t in
        elim (upsert (upserted_row key p name_hash (find key t) compression) t) [
          | none ↦ none
          | some t' ↦ some (upsert_result (find key t) compression, t')
        ]

    unfoldable pub get_profile_by_username : String → Table → Option (CompressedProfile N)
    get_profile_by_username username t = elim (find (lower username) t) [
      | none ↦ none
      | some row ↦ some row.stored
    ]

    -- The chain first, and then the table.
    unfoldable pub get_profile_by_hash : Light N → String → Table → Option (CompressedProfile N)
    get_profile_by_hash light hash t = elim (if light.enabled then light.read hash else none) [
      | some p ↦ some p
      | none ↦ elim (find_by_hash hash t) [ none ↦ none | some row ↦ some row.stored ]
    ]

    -- `markProfileOnChain`: the row of that name, if it has that hash.
    unfoldable pub mark_profile_on_chain : String → String → Table → Option Table
    mark_profile_on_chain username hash t = elim (find (lower username) t) [
      | none ↦ some t
      | some row ↦ elim row.compressed_hash [
        | none ↦ some t
        | some stored_hash ↦
            if str_eq stored_hash hash
            then upsert (record row { compressed_on_chain = true }) t
            else some t
      ]
    ]
