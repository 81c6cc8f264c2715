-- ===== src/Withdraw/Flow.antt =====
-- apps/web/src/lib/withdraw.ts: the fee, the circuit's inputs and the request of a withdrawal. Its
-- helpers are those of packages/sdk/src/pool/proof.ts. The Poseidon hash, the decoding of addresses, the
-- chain's answer and the prover are arguments; a number stands for its decimal text, and a hexadecimal
-- text is the list of its digits' values.
pub mod Inputs
use skaus.Prelude.{
  ℕ, ◌*◌, ◌/◌, String, Bool, true, false, Option, none, some, List, [], ◌∷◌, leb, if◌then◌else◌,
  length, replicate,
}
use skaus.Prelude.Bytes.{Bytes, slice, of_le}
use skaus.Withdraw.Hex.{
  bigint_to_bytes32_be, bytes32_to_bigint, byte_digits, Groth16Proof, proof_to_bytes,
}
use skaus.Withdraw.Merkle.{compute_merkle_path}
use skaus.Deposit.Execution.{compute_commitment, compute_nullifier_hash}
use skaus.Wallet.Scan.{ScannedDeposit}

-- `getPoolFeeBps`: the account's data, if the query was answered and there is one.
unfoldable pub get_pool_fee_bps : Option Bytes → ℕ
get_pool_fee_bps none = 10
get_pool_fee_bps (some account) =
    if leb 74 (length account) then of_le (slice 72 74 account) else 10

pub record CircuitInputs : Type 0 where
  pub merkle_root : ℕ
  pub nullifier_hash : ℕ
  pub recipient : ℕ
  pub amount : ℕ
  pub fee : ℕ
  pub secret : ℕ
  pub nullifier : ℕ
  pub merkle_path : List ℕ
  pub path_indices : List ℕ

pub record WithdrawRequest : Type 0 where
  pub proof : Bytes
  pub merkle_root : List ℕ
  pub nullifier_hash : List ℕ
  pub recipient : String
  pub amount : ℕ
  pub fee : ℕ

-- `merkleRoot || '0'.repeat(64)`
unfoldable pub root_or_zeros : List ℕ → List ℕ
root_or_zeros [] = replicate 64 0
root_or_zeros (d ∷ ds) = d ∷ ds

module _ (poseidon : List ℕ → ℕ) where
  abbrev pub poseidon_hash2 : ℕ → ℕ → ℕ
  poseidon_hash2 a b = poseidon (a ∷ b ∷ [])

  abbrev pub leaf_of : ScannedDeposit → ℕ
  leaf_of d =
      bytes32_to_bigint
        (compute_commitment poseidon d.note_data.secret d.note_data.nullifier d.note_data.amount)

  -- The inputs in `generateWithdrawalProof`.
  unfoldable pub circuit_inputs : ScannedDeposit → Bytes → ℕ → CircuitInputs
  circuit_inputs d recipient fee =
      let path = compute_merkle_path poseidon_hash2 (leaf_of d) d.leaf_index in
      record {
        merkle_root = path.root;
        nullifier_hash = bytes32_to_bigint (compute_nullifier_hash poseidon d.note_data.nullifier);
        recipient = bytes32_to_bigint recipient;
        amount = d.note_data.amount;
        fee = fee;
        secret = d.note_data.secret;
        nullifier = d.note_data.nullifier;
        merkle_path = path.path_elements;
        path_indices = path.path_indices;
      }

  unfoldable pub withdraw_fee : ScannedDeposit → Option Bytes → ℕ
  withdraw_fee d pool_account = d.note_data.amount * get_pool_fee_bps pool_account / 10000

  abbrev pub request_of : ScannedDeposit → String → ℕ → Bytes → List ℕ → WithdrawRequest
  request_of d recipient fee proof root = record {
    proof = proof;
    merkle_root = root;
    nullifier_hash = byte_digits (compute_nullifier_hash poseidon d.note_data.nullifier);
    recipient = recipient;
    amount = d.note_data.amount;
    fee = fee;
  }

  -- The proof and the root of a request that is not a demonstration: `none` is an exception.
  unfoldable pub proved_request :
      ScannedDeposit → String → ℕ → CircuitInputs → Option Groth16Proof → Option WithdrawRequest
  proved_request d recipient fee inputs none = none
  proved_request d recipient fee inputs (some proof) = some (
      request_of d recipient fee (proof_to_bytes proof)
        (byte_digits (bigint_to_bytes32_be inputs.merkle_root)))

  -- `executeWithdraw` up to the request: whether this is a demonstration, the pool's account, the
  -- decoding of the recipient's address, the prover, and the root that the caller may give.
  unfoldable pub execute_withdraw :
      Bool
      → Option Bytes
      → Option Bytes
      → (CircuitInputs → Option Groth16Proof)
      → ScannedDeposit
      → String
      → List ℕ
      → Option WithdrawRequest
  execute_withdraw true pool_account decoded prove d recipient root =
      some (
        request_of d recipient (withdraw_fee d pool_account) (replicate 256 0) (root_or_zeros root))
  execute_withdraw false pool_account none prove d recipient root = none
  execute_withdraw false pool_account (some key) prove d recipient root =
      let fee = withdraw_fee d pool_account in
      let inputs = circuit_inputs d key fee in proved_request d recipient fee inputs (prove inputs)
