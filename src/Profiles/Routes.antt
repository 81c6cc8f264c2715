-- ===== src/Profiles/Routes.antt =====
-- The handlers of apps/gateway/src/routes/profiles.ts that read and write profiles, and
-- `buildUpdateProfileTx` of apps/gateway/src/services/compression.ts. The decoding of addresses, base 58
-- and hexadecimal texts, and what the chain answers, are arguments.
pub mod Confirmed
mod Tests
use skaus.Prelude.{
  ℕ, ◌+◌, String, Bool, true, false, ◌||◌, Option, none, some, List, [], ◌∷◌, if◌then◌else◌, str_eq,
  leb, ◌==◌, length,
}
use skaus.Prelude.Bytes.{Bytes}
use skaus.Relayer.Instruction.{AccountMeta}
use skaus.Names.Hash.{hash_name}
use skaus.Names.Resolver.{name_seed}
use skaus.Profiles.Codec.{CompressedProfile}
use skaus.Profiles.Store.{
  ProfileRow, ProfileTable, Light, UpsertResult, or_nothing, update_profile_data, upsert_profile,
  get_profile_by_username, get_profile_by_hash, mark_profile_on_chain,
}

-- The decoding of an address gives its canonical text and its bytes; the relayer's key if one is set;
-- whether the query of the block hash is answered.
pub record ProfileHost : Type 0 where
  pub lower : String → String
  pub public_key : String → Option (String × Bytes)
  pub base58 : String → Option Bytes
  pub hex : String → Bytes
  pub is_hash : String → Bool
  pub poseidon : List ℕ → ℕ
  pub program_address : List Bytes → Bytes
  pub discriminator : Bytes
  pub system_program : Bytes
  pub relayer : Option Bytes
  pub blockhash : Bool

pub record UpdateTx : Type 0 where
  pub keys : List AccountMeta
  pub bytes : Bytes
  pub fee_payer : Bytes

pub data PutReply : Type 0 where
  no_display_name bad_authority put_failed : PutReply
  put_done : UpsertResult → PutReply

pub data LinkReply : Type 0 where
  no_authority no_profile link_bad_authority link_failed : LinkReply
  linked : UpdateTx → String → LinkReply

pub data ConfirmReply : Type 0 where
  missing_fields confirm_failed confirmed : ConfirmReply

pub data HashReply (N : Type 0) : Type 0 where
  bad_hash no_profile_for_hash : HashReply N
  profile_of_hash : CompressedProfile N → HashReply N

abbrev update_meta : Bytes → Bool → Bool → AccountMeta
update_meta pubkey is_signer is_writable = record {
  pubkey = pubkey;
  is_signer = is_signer;
  is_writable = is_writable;
}

unfoldable pub payer_or : Bytes → Option Bytes → Bytes
payer_or authority none = authority
payer_or authority (some relayer) = relayer

module _ (h : ProfileHost) where
  open h use {lower, public_key, base58, hex, is_hash, poseidon, program_address}

  unfoldable pub update_keys : Bytes → Bytes → List AccountMeta
  update_keys name_hash authority =
      update_meta (program_address (name_seed ∷ name_hash ∷ [])) false true
      ∷ update_meta authority true false
      ∷ update_meta h.system_program false false
      ∷ []

  -- `buildUpdateProfileTx`: `none` is an exception.
  unfoldable pub build_update_profile_tx : Bytes → Bytes → String → Option UpdateTx
  build_update_profile_tx name_hash authority hash =
      elim (update_profile_data h.discriminator (hex hash)) [
        | none ↦ none
        | some bytes ↦
            if h.blockhash
            then some (record {
              keys = update_keys name_hash authority;
              bytes = bytes;
              fee_payer = payer_or authority h.relayer;
            })
            else none
      ]

  unfoldable pub link_reply : String → Option UpdateTx → LinkReply
  link_reply hash none = link_failed
  link_reply hash (some tx) = linked tx hash

  -- The hash of the row, or that of the name; base 58 may throw.
  unfoldable pub name_hash_of_row : String → Option String → Option Bytes
  name_hash_of_row username none = some (hash_name lower poseidon username)
  name_hash_of_row username (some text) =
      if str_eq text "" then some (hash_name lower poseidon username) else base58 text

  unfoldable pub link_with : String → Option Bytes → Option (String × Bytes) → LinkReply
  link_with hash none authority = link_failed
  link_with hash (some name_hash) none = link_bad_authority
  link_with hash (some name_hash) (some (text, key)) =
      link_reply hash (build_update_profile_tx name_hash key hash)

  module _ {N : Type 0} where
    -- `!row?.compressedHash`
    unfoldable pub link_row : String → String → Option (ProfileRow N) → LinkReply
    link_row username authority none = no_profile
    link_row username authority (some row) =
        if str_eq (or_nothing row.compressed_hash) ""
        then no_profile
        else link_with (or_nothing row.compressed_hash) (name_hash_of_row username row.name_hash)
            (public_key authority)

  module _ {N : Type 0} (address : String → String) (m : ProfileTable N) where
    open m use {Table, find}

    unfoldable pub put_result : Option (UpsertResult × Table) → Table → PutReply × Table
    put_result none t = (put_failed, t)
    put_result (some (r, t')) t = (put_done r, t')

    -- The profile as the handler passes it on.
    unfoldable pub next_version : ℕ → CompressedProfile N → CompressedProfile N
    next_version now p = record p { version = p.version + 1; updated_at = now }

    unfoldable pub put_checked :
        Light N → ℕ → String → CompressedProfile N → Option String → Table → PutReply × Table
    put_checked light now username p authority t =
        put_result
          (upsert_profile address m lower light username (next_version now p) none authority t) t

    unfoldable pub put_decoded :
        Light N
        → ℕ
        → String
        → CompressedProfile N
        → Option (String × Bytes)
        → Table
        → PutReply × Table
    put_decoded light now username p none t = (bad_authority, t)
    put_decoded light now username p (some (text, key)) t =
        put_checked light now username p (some text) t

    -- PUT /profiles/:username; no authority is the empty text. The caller is not asked who it is.
    unfoldable pub put_profile :
        Light N → ℕ → String → CompressedProfile N → String → Table → PutReply × Table
    put_profile light now username p authority t =
        if str_eq p.display_name ""
        then (no_display_name, t)
        else if str_eq authority ""
        then put_checked light now username p none t
        else put_decoded light now username p (public_key authority) t

    -- GET /profiles/:username: `none` is 404.
    unfoldable pub get_profile : String → Table → Option (CompressedProfile N)
    get_profile username t = get_profile_by_username address m lower username t

    unfoldable pub hash_reply : Option (CompressedProfile N) → HashReply N
    hash_reply none = no_profile_for_hash
    hash_reply (some p) = profile_of_hash p

    -- GET /profiles/hash/:hash
    unfoldable pub get_by_hash : Light N → String → Table → HashReply N
    get_by_hash light hash t =
        if is_hash hash
        then hash_reply (get_profile_by_hash address m lower light hash t)
        else bad_hash

    -- POST /profiles/:username/link-to-chain
    unfoldable pub link_to_chain : String → String → Table → LinkReply
    link_to_chain username authority t =
        if str_eq authority ""
        then no_authority
        else link_row username authority (find (lower username) t)

    unfoldable pub confirm_result : Option Table → Table → ConfirmReply × Table
    confirm_result none t = (confirm_failed, t)
    confirm_result (some t') t = (confirmed, t')

    -- POST /profiles/:username/confirm-on-chain: the signature is only asked to be there.
    unfoldable pub confirm_on_chain : String → String → String → Table → ConfirmReply × Table
    confirm_on_chain username hash tx_signature t =
        if str_eq hash "" || str_eq tx_signature ""
        then (missing_fields, t)
        else confirm_result (mark_profile_on_chain address m lower username hash t) t
