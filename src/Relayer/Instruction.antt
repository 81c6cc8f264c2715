-- ===== src/Relayer/Instruction.antt =====
-- packages/relayer/src/executor.ts: the data and the accounts of the withdraw instruction. What the
-- Solana and Node libraries decode and derive is an argument.
pub mod Layout
use skaus.Prelude.{
  ℕ, ◌+◌, ◌^◌, String, Bool, true, false, Option, none, some, List, [], ◌∷◌, ltb, leb, ◌==◌,
  if◌then◌else◌, length,
}
use skaus.Prelude.Bytes.{Bytes, slice, le_bytes, concat}
use skaus.Relayer.Job.{WithdrawParams}

abbrev pub withdraw_discriminator : Bytes
withdraw_discriminator = 183 ∷ 18 ∷ 70 ∷ 156 ∷ 148 ∷ 109 ∷ 161 ∷ 34 ∷ []

abbrev pub fee_vault_offset : ℕ
fee_vault_offset = 151

-- `writeBigUInt64LE` throws at a number of more than 64 bits.
unfoldable pub u64_le : ℕ → Option Bytes
u64_le n = if ltb n (2 ^ 64) then some (le_bytes 8 n) else none

unfoldable pub build_withdraw_instruction_data :
    Bytes → Bytes → Bytes → Bytes → Bytes → ℕ → Bytes → Option Bytes
build_withdraw_instruction_data proof_a proof_b proof_c nullifier_hash recipient amount
      merkle_root =
    elim (u64_le amount) [
      | none ↦ none
      | some amount_buf ↦ some (
          concat (
            withdraw_discriminator ∷ proof_a ∷ proof_b ∷ proof_c ∷ nullifier_hash ∷ recipient
            ∷ amount_buf ∷ merkle_root ∷ []))
    ]

pub data Fault : Type 0 where
  proof_size : ℕ → Fault
  nullifier_size root_size bad_mint bad_recipient bad_amount amount_range : Fault

pub data Result (A : Type 0) : Type 0 where
  ok : A → Result A
  err : Fault → Result A

infixl 5 ◌>>=◌ ◌>>◌
abbrev pub ◌>>=◌ : {A B : Type 0} → Result A → (A → Result B) → Result B
ok a >>= f = f a
err e >>= f = err e

abbrev pub ◌>>◌ : {B : Type 0} → Result (Unit {0}) → Result B → Result B
m >> k = m >>= λ _. k

abbrev pub guard : Bool → Fault → Result (Unit {0})
guard true e = ok tt
guard false e = err e

abbrev pub or_fail : {A : Type 0} → Option A → Fault → Result A
or_fail none e = err e
or_fail (some a) e = ok a

-- `Buffer.from(_, 'base64')`, `Buffer.from(_, 'hex')`, `new PublicKey(_)` and `BigInt(_)`.
pub record Host : Type 0 where
  pub base64 : String → Bytes
  pub hex : String → Bytes
  pub public_key : String → Option Bytes
  pub big_int : String → Option ℕ

-- The checks of sizes in `_buildAndSend`.
unfoldable pub check_sizes : Host → WithdrawParams → Result (Unit {0})
check_sizes host p = do
  let proof = host.base64 p.proof_base64
  guard (length proof == 256) (proof_size (length proof))
  guard (length (host.hex p.nullifier_hash) == 32) nullifier_size
  guard (length (host.hex p.merkle_root) == 32) root_size

-- The rest of it up to the data that it sends.
unfoldable pub encode : Host → WithdrawParams → Result Bytes
encode host p = do
  let proof = host.base64 p.proof_base64
  token_mint ← or_fail (host.public_key p.token_mint) bad_mint
  recipient ← or_fail (host.public_key p.recipient) bad_recipient
  amount ← or_fail (host.big_int p.amount) bad_amount
  or_fail
      (build_withdraw_instruction_data (slice 0 64 proof) (slice 64 192 proof) (slice 192 256 proof)
        (host.hex p.nullifier_hash) recipient amount (host.hex p.merkle_root))
      amount_range

unfoldable pub prepare : Host → WithdrawParams → Result Bytes
prepare host p = do check_sizes host p; encode host p

-- `_resolveFeeVault`: the account's data if there is one, and the account to fall back on.
unfoldable pub resolve_fee_vault : Option Bytes → Bytes → Bytes
resolve_fee_vault none fallback = fallback
resolve_fee_vault (some account) fallback =
    if leb (fee_vault_offset + 32) (length account)
    then slice fee_vault_offset (fee_vault_offset + 32) account
    else fallback

pub record AccountMeta : Type 0 where
  pub pubkey : Bytes
  pub is_signer : Bool
  pub is_writable : Bool

-- `findProgramAddressSync` from its seeds, `getAssociatedTokenAddress` from a mint and an owner,
-- `getAccountInfo`, and the fixed addresses.
pub record Chain : Type 0 where
  pub program_address : List Bytes → Bytes
  pub token_address : Bytes → Bytes → Bytes
  pub account_data : Bytes → Option Bytes
  pub relayer : Bytes
  pub token_program : Bytes
  pub system_program : Bytes
  pub stealth_pool_seed : Bytes
  pub merkle_roots_seed : Bytes
  pub nullifier_seed : Bytes

abbrev pub pool_pda : Chain → Bytes → Bytes
pool_pda c token_mint = c.program_address (c.stealth_pool_seed ∷ token_mint ∷ [])

abbrev signer : Bytes → AccountMeta
signer k = record { pubkey = k; is_signer = true; is_writable = true }

abbrev writable : Bytes → AccountMeta
writable k = record { pubkey = k; is_signer = false; is_writable = true }

abbrev readonly : Bytes → AccountMeta
readonly k = record { pubkey = k; is_signer = false; is_writable = false }

unfoldable pub derive_accounts : Chain → Bytes → Bytes → Bytes → List AccountMeta
unfolding resolve_fee_vault
derive_accounts c token_mint nullifier_hash recipient =
    let pool = pool_pda c token_mint in
    let pool_token_account = c.token_address token_mint pool in
    writable pool
    ∷ readonly (c.program_address (c.merkle_roots_seed ∷ pool ∷ []))
    ∷ writable (c.program_address (c.nullifier_seed ∷ pool ∷ nullifier_hash ∷ []))
    ∷ writable pool_token_account
    ∷ writable (c.token_address token_mint recipient)
    ∷ writable (resolve_fee_vault (c.account_data pool) pool_token_account)
    ∷ signer c.relayer
    ∷ readonly c.token_program
    ∷ readonly c.system_program
    ∷ []
