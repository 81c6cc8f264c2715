-- ===== src/Deposit/Execution.antt =====
-- `executeDeposit` of apps/web/src/lib/deposit.ts, with `computeCommitment` of
-- packages/crypto/src/commitment.ts. Random numbers, the Poseidon hash and what the sending of a
-- transaction comes to are arguments.
pub mod Total
use skaus.Prelude.{
  ℕ, suc, String, Bool, true, false, Option, none, some, List, [], ◌∷◌, if◌then◌else◌, ◌==◌,
}
use skaus.Prelude.Bytes.{Bytes}
use skaus.Withdraw.Hex.{bigint_to_bytes32_be}
use skaus.Relayer.Instruction.{Chain}
use skaus.Notes.Encryption.{Primitives, DepositNoteData, encrypt_note, derive_stealth_address}
use skaus.Deposit.Tiers.{Token, Plan, below_minimum, unsplittable, deposits, plan_deposit}
use skaus.Deposit.Transaction.{DepositInstruction, build_deposit_transaction}

-- What is drawn for a deposit: two numbers of 31 bytes, a private key and a nonce.
pub record Draw : Type 0 where
  pub secret : ℕ
  pub nullifier : ℕ
  pub ephemeral_privkey : Bytes
  pub nonce : Bytes

-- The caller's wallet and the chain: `send` is the signature of the deposit at an index, or an error of
-- the signing, the sending or the confirmation.
pub record Payer : Type 0 where
  pub chain : Chain
  pub deposit_note_seed : Bytes
  pub depositor : Bytes
  pub token_mint : Bytes
  pub mint_text : String
  pub send : ℕ → Option String

-- A deposit that was confirmed. The first of an execution creates the two token accounts.
pub record Made : Type 0 where
  pub amount : ℕ
  pub commitment : Bytes
  pub encrypted_note : Bytes
  pub instruction : DepositInstruction
  pub creates_accounts : Bool
  pub signature : String

-- The deposits that were confirmed, and whether none was refused.
pub record DepositRun : Type 0 where
  pub made : List Made
  pub complete : Bool

pub data DepositReply : Type 0 where
  not_planned : Plan → DepositReply
  executed : DepositRun → DepositReply

unfoldable pub compute_commitment : (List ℕ → ℕ) → ℕ → ℕ → ℕ → Bytes
compute_commitment poseidon secret nullifier amount =
    bigint_to_bytes32_be (poseidon (secret ∷ nullifier ∷ amount ∷ []))

unfoldable pub compute_nullifier_hash : (List ℕ → ℕ) → ℕ → Bytes
compute_nullifier_hash poseidon nullifier = bigint_to_bytes32_be (poseidon (nullifier ∷ []))

-- An exception in one round ends the loop.
abbrev pub and_then : Option Made → DepositRun → DepositRun
and_then none rest = record { made = []; complete = false }
and_then (some d) rest = record { made = d ∷ rest.made; complete = rest.complete }

module _ (p : Primitives) (poseidon : List ℕ → ℕ) (payer : Payer) (scan_pubkey : Bytes)
    (draw : ℕ → Draw) where
  open p use {public_key}

  abbrev pub note_for : ℕ → ℕ → DepositNoteData
  note_for i tier = record {
    secret = (draw i).secret;
    nullifier = (draw i).nullifier;
    amount = tier;
    token_mint = payer.mint_text;
    ephemeral_pubkey = public_key (draw i).ephemeral_privkey;
  }

  abbrev pub sealed_for : ℕ → ℕ → Bytes
  sealed_for i tier =
      encrypt_note p (draw i).nonce (note_for i tier)
        (derive_stealth_address p (draw i).ephemeral_privkey scan_pubkey i).0

  abbrev pub commitment_for : ℕ → ℕ → Bytes
  commitment_for i tier = compute_commitment poseidon (draw i).secret (draw i).nullifier tier

  -- What is built and what the sending comes to, which is asked for only if it was built.
  unfoldable pub made_of : ℕ → ℕ → Option DepositInstruction → Option String → Option Made
  made_of i tier none sent = none
  made_of i tier (some instruction) none = none
  made_of i tier (some instruction) (some signature) = some (record {
    amount = tier;
    commitment = commitment_for i tier;
    encrypted_note = sealed_for i tier;
    instruction = instruction;
    creates_accounts = i == 0;
    signature = signature;
  })

  -- One round of the loop: `none` is an exception.
  unfoldable pub make_deposit : ℕ → ℕ → Option Made
  make_deposit i tier =
      made_of i tier
        (build_deposit_transaction payer.chain payer.deposit_note_seed payer.depositor
          payer.token_mint tier (commitment_for i tier) (sealed_for i tier))
        (payer.send i)

  -- The loop over the tiers, from an index on.
  unfoldable pub execute_from : ℕ → List ℕ → DepositRun
  execute_from i [] = record { made = []; complete = true }
  execute_from i (tier ∷ tiers) =
      let rest = execute_from (suc i) tiers in and_then (make_deposit i tier) rest

  -- What the plan comes to.
  unfoldable pub execute_plan : Plan → DepositReply
  execute_plan below_minimum = not_planned below_minimum
  execute_plan (unsplittable r) = not_planned (unsplittable r)
  execute_plan (deposits tiers) = executed (execute_from 0 tiers)

  -- `executeDeposit`; the outer `none` is a split that did not end.
  unfoldable pub execute_deposit : ℕ → Token → Option DepositReply
  execute_deposit amount token = elim (plan_deposit amount token) [
    | none ↦ none
    | some plan ↦ some (execute_plan plan)
  ]
