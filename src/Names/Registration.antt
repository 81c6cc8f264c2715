-- ===== src/Names/Registration.antt =====
-- `POST /names/register` of apps/gateway/src/routes/names.ts: the data and the accounts of the
-- transaction, and the rows that it writes before.
pub mod Layout
pub mod Treasury
use skaus.Prelude.{
  ℕ, ◌+◌, ◌-◌, ◌^◌, String, Bool, true, false, ◌||◌, not, Option, none, some, List, [], ◌∷◌, ◌++◌,
  leb, if◌then◌else◌, length, take, drop, replicate, str_eq,
}
use skaus.Prelude.Bytes.{Bytes, slice, le_bytes}
use skaus.Relayer.Instruction.{AccountMeta}
use skaus.Names.Validity.{utf8, is_valid_name}
use skaus.Names.Hash.{normalize, hash_name}
use skaus.Names.Resolver.{
  Account, unreachable, missing, account, Network, name_seed, resolve_username,
}

-- `source.copy(target, offset)`: what does not fit is left out.
unfoldable pub copy_into : ℕ → Bytes → Bytes → Bytes
copy_into offset source target =
    take offset target
    ++ (take (length target - offset) source ++ drop (offset + length source) target)

-- `regData`, filled from the front.
unfoldable pub register_data : Bytes → Bytes → Bytes → Bytes → Bytes → Bytes
register_data disc name hash scan spend =
    let n = length name in
    let b0 = replicate (8 + 4 + n + 32 + 32 + 32 + 1) 0 in
    let b1 = copy_into 0 disc b0 in
    let b2 = copy_into 8 (le_bytes 4 n) b1 in
    let b3 = copy_into 12 name b2 in
    let b4 = copy_into (12 + n) hash b3 in
    let b5 = copy_into (12 + n + 32) scan b4 in
    let b6 = copy_into (12 + n + 64) spend b5 in copy_into (12 + n + 96) (1 ∷ []) b6

-- The account that the fee goes to, from the account of the registry's configuration; a query that
-- throws ends the request.
unfoldable pub fee_treasury_of : Bytes → Account → Option Bytes
fee_treasury_of authority unreachable = none
fee_treasury_of authority missing = some authority
fee_treasury_of authority (account bytes) =
    some (if leb 48 (length bytes) then slice 8 40 bytes else authority)

abbrev register_meta : Bytes → Bool → Bool → AccountMeta
register_meta pubkey is_signer is_writable = record {
  pubkey = pubkey;
  is_signer = is_signer;
  is_writable = is_writable;
}

unfoldable pub register_keys : Bytes → Bytes → Bytes → Bytes → Bytes → Bytes → List AccountMeta
register_keys config_pda name_record_pda fee_treasury payer authority system =
    register_meta config_pda false true
    ∷ register_meta name_record_pda false true
    ∷ register_meta fee_treasury false true
    ∷ register_meta payer true true
    ∷ register_meta authority true false
    ∷ register_meta system false false
    ∷ []

pub record RegisterBody : Type 0 where
  pub username : String
  pub authority : String
  pub scan_pubkey : String
  pub spend_pubkey : String

-- What the libraries decode, the relayer's key if one is set, whether the query of the block hash was
-- answered, and the fixed bytes.
pub record Setting : Type 0 where
  pub public_key : String → Option Bytes
  pub decode : String → Option Bytes
  pub relayer : Option Bytes
  pub blockhash : Bool
  pub discriminator : Bytes
  pub system_program : Bytes

-- The writes of the two rows: `none` is an error, which the handler drops.
pub record Writes (Db : Type 0) : Type 0 where
  pub upsert_profile : String → String → Db → Option Db
  pub upsert_personal : String → String → Db → Option Db

pub data RegisterReply : Type 0 where
  missing_fields invalid_name taken failed : RegisterReply
  built : Bytes → List AccountMeta → Bytes → Bool → RegisterReply

abbrev pub config_seed : Bytes
config_seed = utf8 "registry_config"

abbrev pub dropped : {Db : Type 0} → Option Db → Db → Db
dropped none db = db
dropped (some db') db = db'

-- The part under `try` behind the two writes.
unfoldable pub build_registration :
    Network
    → Setting
    → RegisterBody
    → Bytes
    → Option Bytes
    → Option Bytes
    → Option Bytes
    → RegisterReply
build_registration net env body hash (some authority) (some scan) (some spend) =
    let config_pda = net.program_address (config_seed ∷ []) in
    let name_record_pda = net.program_address (name_seed ∷ hash ∷ []) in
    let name = utf8 (normalize net.lower body.username) in
    elim (fee_treasury_of authority (net.get_account config_pda)) [
      | none ↦ failed
      | some treasury ↦
          let payer : Bytes = elim env.relayer [ some key ↦ key | none ↦ authority ] in
          if env.blockhash
          then built (register_data env.discriminator name hash scan spend)
              (register_keys config_pda name_record_pda treasury payer authority env.system_program)
              name_record_pda (elim env.relayer [ some key ↦ true | none ↦ false ])
          else failed
    ]
build_registration net env body hash none scan spend = failed
build_registration net env body hash (some authority) none spend = failed
build_registration net env body hash (some authority) (some scan) none = failed

-- `register`: the reply, and the database behind it.
unfoldable pub register :
    {Db : Type 0} → Network → Setting → Writes Db → RegisterBody → Db → RegisterReply × Db
register net env w body db =
    if str_eq body.username ""
      || str_eq body.authority ""
      || str_eq body.scan_pubkey ""
      || str_eq body.spend_pubkey ""
    then (missing_fields, db)
    else if not (is_valid_name body.username)
    then (invalid_name, db)
    else elim (resolve_username net body.username) [
      | some existing ↦ (taken, db)
      | none ↦ elim net.poseidon [
        | none ↦ (failed, db)
        | some poseidon ↦
            let hash = hash_name net.lower poseidon body.username in
            let db1 = dropped (w.upsert_profile body.username (net.base58 hash) db) db in
            let db2 = dropped (w.upsert_personal body.username body.authority db1) db1 in
            (
              build_registration net env body hash (env.public_key body.authority)
                  (env.decode body.scan_pubkey) (env.decode body.spend_pubkey),
              db2,
            )
      ]
    ]
