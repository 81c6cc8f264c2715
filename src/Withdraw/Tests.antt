-- ===== src/Withdraw/Tests.antt =====
-- Runs of the withdrawal's computations at concrete inputs.
use skaus.Prelude.{
  ℕ, ◌+◌, ◌*◌, ◌%◌, ◌^◌, ◌<◌, ◌≡◌, refl, true, false, Option, none, some, List, [], ◌∷◌, replicate,
  arith,
}
use skaus.Prelude.Bytes.{Bytes}
use skaus.Indexer.Events.{pos}
use skaus.Wallet.Scan.{ScannedDeposit}
use skaus.Withdraw.Flow.{
  CircuitInputs, WithdrawRequest, poseidon_hash2, circuit_inputs, withdraw_fee, execute_withdraw,
}
use skaus.Withdraw.Flow.Inputs.{execute_withdraw-circuit_inputs}
use skaus.Withdraw.Hex.{Groth16Proof, bytes32_to_bigint, from_hex}
use skaus.Withdraw.Merkle.{compute_merkle_path, insert_leaf, verify_proof}
use skaus.Withdraw.Merkle.Laws.{compute_merkle_path-insert_leaf}

abbrev proof : Groth16Proof
proof = record { a_x = 1; a_y = 300; b_x0 = 3; b_x1 = 4; b_y0 = 5; b_y1 = 6; c_x = 7; c_y = 65_536 }

abbrev hash : ℕ → ℕ → ℕ
hash a b = 3 * a + 5 * b + 1

compute_merkle_path-insert_leaf_example : (compute_merkle_path hash 7 5).root ≡ insert_leaf hash 7 5
compute_merkle_path-insert_leaf_example = compute_merkle_path-insert_leaf hash 7 5

abbrev poseidon : List ℕ → ℕ
poseidon [] = 0
poseidon (x ∷ xs) = (x + 7 * poseidon xs + 1) % 1_000_003

poseidon-field : (xs : List ℕ) → poseidon xs < 2 ^ 256
poseidon-field [] = omega arith
poseidon-field (x ∷ xs) = omega arith

abbrev deposit : ScannedDeposit
deposit = record {
  id = "c";
  commitment = "c";
  leaf_index = 5;
  amount = 30_000;
  token = "USDC";
  timestamp = pos 1_700_000_000;
  tx_signature = "sig";
  note_data = record {
    secret = 11;
    nullifier = 12;
    amount = 30_000;
    token_mint = "mint";
    ephemeral_pubkey = [];
  };
}

abbrev prover : CircuitInputs → Option Groth16Proof
prover inputs = some proof

abbrev recipient_key : Bytes
recipient_key = replicate 32 9

execute_withdraw-circuit_inputs_example :
    let inputs =
      circuit_inputs poseidon deposit recipient_key (withdraw_fee poseidon deposit none) in
    let hash2 = poseidon_hash2 poseidon in
    let leaf = poseidon (11 ∷ 12 ∷ 30_000 ∷ []) in
    (r : WithdrawRequest) × (execute_withdraw poseidon false none
        (some recipient_key)
        prover
        deposit
        "ada"
        []
      ≡ some r)
    × (bytes32_to_bigint (from_hex r.merkle_root) ≡ inputs.merkle_root)
    × (inputs.merkle_root ≡ insert_leaf hash2 leaf 5)
    × (verify_proof hash2 inputs.merkle_root leaf inputs.merkle_path inputs.path_indices ≡ true)
    × (bytes32_to_bigint (from_hex r.nullifier_hash) ≡ inputs.nullifier_hash)
    × (r.amount ≡ inputs.amount)
    × (r.fee ≡ inputs.fee)
execute_withdraw-circuit_inputs_example =
    execute_withdraw-circuit_inputs poseidon poseidon-field none recipient_key prover deposit "ada"
      [] proof refl
