-- ===== src/Deposit/Transaction.antt =====
-- packages/sdk/src/pool/index.ts, which apps/web/src/lib/stealth.ts repeats: the accounts and the data
-- of a deposit. What the Solana libraries derive is an argument.
use skaus.Prelude.{
  ℕ, ◌^◌, Bool, true, false, Option, none, some, List, [], ◌∷◌, ltb, if◌then◌else◌, length,
}
use skaus.Prelude.Bytes.{Bytes, le_bytes, concat}
use skaus.Relayer.Instruction.{Chain, AccountMeta, u64_le}

abbrev pub deposit_discriminator : Bytes
deposit_discriminator = 242 ∷ 35 ∷ 198 ∷ 137 ∷ 82 ∷ 225 ∷ 242 ∷ 182 ∷ []

unfoldable pub derive_pool_pda : Chain → Bytes → Bytes
derive_pool_pda c token_mint = c.program_address (c.stealth_pool_seed ∷ token_mint ∷ [])

unfoldable pub derive_merkle_root_history_pda : Chain → Bytes → Bytes
derive_merkle_root_history_pda c pool = c.program_address (c.merkle_roots_seed ∷ pool ∷ [])

-- `deposit_note` is the seed of the note's account.
unfoldable pub derive_deposit_note_pda : Chain → Bytes → Bytes → Bytes → Bytes
derive_deposit_note_pda c deposit_note pool commitment =
    c.program_address (deposit_note ∷ pool ∷ commitment ∷ [])

-- The numbers that do not fit throw.
unfoldable pub deposit_bytes : Option Bytes → Bytes → Bytes → Option Bytes
deposit_bytes none commitment encrypted_note = none
deposit_bytes (some amount_buf) commitment encrypted_note = some (
    concat (
      deposit_discriminator
      ∷ amount_buf
      ∷ commitment
      ∷ le_bytes 4 (length encrypted_note)
      ∷ encrypted_note
      ∷ []))

unfoldable pub deposit_data : ℕ → Bytes → Bytes → Option Bytes
deposit_data amount commitment encrypted_note =
    if ltb (length encrypted_note) (2 ^ 32)
    then deposit_bytes (u64_le amount) commitment encrypted_note
    else none

abbrev deposit_meta : Bytes → Bool → Bool → AccountMeta
deposit_meta pubkey is_signer is_writable = record {
  pubkey = pubkey;
  is_signer = is_signer;
  is_writable = is_writable;
}

unfoldable pub deposit_keys : Chain → Bytes → Bytes → Bytes → Bytes → List AccountMeta
deposit_keys c deposit_note depositor token_mint commitment =
    let pool = derive_pool_pda c token_mint in
    deposit_meta pool false true
    ∷ deposit_meta (derive_merkle_root_history_pda c pool) false true
    ∷ deposit_meta (derive_deposit_note_pda c deposit_note pool commitment) false true
    ∷ deposit_meta (c.token_address token_mint depositor) false true
    ∷ deposit_meta (c.token_address token_mint pool) false true
    ∷ deposit_meta depositor true true
    ∷ deposit_meta c.token_program false false
    ∷ deposit_meta c.system_program false false
    ∷ []

pub record DepositInstruction : Type 0 where
  pub keys : List AccountMeta
  pub bytes : Bytes

unfoldable pub build_deposit_transaction :
    Chain → Bytes → Bytes → Bytes → ℕ → Bytes → Bytes → Option DepositInstruction
build_deposit_transaction c deposit_note depositor token_mint amount commitment encrypted_note =
    elim (deposit_data amount commitment encrypted_note) [
      | none ↦ none
      | some bytes ↦ some (record {
        keys = deposit_keys c deposit_note depositor token_mint commitment;
        bytes = bytes;
      })
    ]
