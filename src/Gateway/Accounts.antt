-- ===== src/Gateway/Accounts.antt =====
-- apps/gateway/src/services/relay.ts: the data and the accounts of the withdraw instruction, by the
-- same libraries as in packages/relayer/src/executor.ts.
pub mod Agreement
use skaus.Prelude.{
  ℕ, ◌+◌, ◌^◌, String, true, false, Option, none, some, List, [], ◌∷◌, leb, ltb, ◌==◌,
  if◌then◌else◌, length,
}
use skaus.Prelude.Bytes.{Bytes, slice, concat, le_bytes}
use skaus.Relayer.Instruction.{
  Result, ◌>>=◌, ◌>>◌, guard, or_fail, proof_size, nullifier_size, root_size, bad_recipient,
  bad_amount, amount_range, Host, Chain, AccountMeta, u64_le,
}

pub record PublicInputs : Type 0 where
  pub merkle_root : String
  pub nullifier_hash : String
  pub recipient : String
  pub amount : String
  pub fee : String

-- `FEE_VAULT_OFFSET`, as the sum that the source writes.
abbrev pub vault_offset : ℕ
vault_offset = 8 + 32 + 32 + 2 + 8 + 8 + 8 + 8 + 8 + 8 + 4 + 1 + 32

unfoldable pub fee_token_account : Option Bytes → Bytes → Bytes
fee_token_account none pool_token_account = pool_token_account
fee_token_account (some account) pool_token_account =
    if leb (vault_offset + 32) (length account)
    then slice vault_offset (vault_offset + 32) account
    else pool_token_account

abbrev pub account_meta : Bytes → AccountMeta
account_meta k = record { pubkey = k; is_signer = false; is_writable = true }

unfoldable pub derive_withdraw_accounts : Chain → Bytes → Bytes → Bytes → List AccountMeta
derive_withdraw_accounts c token_mint nullifier_hash recipient =
    let pool_pda = c.program_address (c.stealth_pool_seed ∷ token_mint ∷ []) in
    let merkle_root_history_pda = c.program_address (c.merkle_roots_seed ∷ pool_pda ∷ []) in
    let spent_nullifier_pda =
      c.program_address (c.nullifier_seed ∷ pool_pda ∷ nullifier_hash ∷ []) in
    let pool_token_account = c.token_address token_mint pool_pda in
    let recipient_token_account = c.token_address token_mint recipient in
    let fee_account = fee_token_account (c.account_data pool_pda) pool_token_account in
    account_meta pool_pda
    ∷ record { pubkey = merkle_root_history_pda; is_signer = false; is_writable = false }
    ∷ account_meta spent_nullifier_pda
    ∷ account_meta pool_token_account
    ∷ account_meta recipient_token_account
    ∷ account_meta fee_account
    ∷ record { pubkey = c.relayer; is_signer = true; is_writable = true }
    ∷ record { pubkey = c.token_program; is_signer = false; is_writable = false }
    ∷ record { pubkey = c.system_program; is_signer = false; is_writable = false }
    ∷ []

-- `buildWithdrawInstructionData`: `writeBigUInt64LE` throws at more than 64 bits.
unfoldable pub build_withdraw_data :
    Bytes → Bytes → Bytes → Bytes → Bytes → ℕ → Bytes → Option Bytes
build_withdraw_data proof_a proof_b proof_c nullifier_hash recipient amount merkle_root =
    if ltb amount (2 ^ 64)
    then some (
        concat (
          (183 ∷ 18 ∷ 70 ∷ 156 ∷ 148 ∷ 109 ∷ 161 ∷ 34 ∷ [])
          ∷ proof_a
          ∷ proof_b
          ∷ proof_c
          ∷ nullifier_hash
          ∷ recipient
          ∷ le_bytes 8 amount
          ∷ merkle_root
          ∷ []))
    else none

-- `submitWithdrawal` from the proof to the data, without the queries of the chain between.
unfoldable pub prepare_withdrawal : Host → String → PublicInputs → Result Bytes
prepare_withdrawal host proof_base64 inputs = do
  let proof = host.base64 proof_base64
  guard (length proof == 256) (proof_size (length proof))
  recipient ← or_fail (host.public_key inputs.recipient) bad_recipient
  amount ← or_fail (host.big_int inputs.amount) bad_amount
  guard (length (host.hex inputs.nullifier_hash) == 32) nullifier_size
  guard (length (host.hex inputs.merkle_root) == 32) root_size
  or_fail
      (build_withdraw_data (slice 0 64 proof) (slice 64 192 proof) (slice 192 256 proof)
        (host.hex inputs.nullifier_hash) recipient amount (host.hex inputs.merkle_root))
      amount_range
