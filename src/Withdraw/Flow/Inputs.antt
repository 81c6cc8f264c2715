-- ===== src/Withdraw/Flow/Inputs.antt =====
-- The request of a withdrawal carries what the circuit was given.
use skaus.Prelude.{
  ℕ, zero, suc, ◌/◌, ◌%◌, ◌^◌, ◌<◌, ◌≡◌, refl, ap, ◌∙◌, String, true, false, inl, inr, Option, some,
  List, [], ◌∷◌, ◌==◌, Bool-cases,
}
use skaus.Prelude.Bytes.{Bytes}
use skaus.Withdraw.Hex.{
  from_hex, bigint_to_bytes32_be, bytes32_to_bigint, byte_digits, Groth16Proof, proof_to_bytes,
}
use skaus.Withdraw.Hex.Laws.{bytes32_to_bigint-bigint_to_bytes32_be}
use skaus.Withdraw.Merkle.{
  hash_level, climb, entry, compute_zeros, compute_merkle_path, insert_leaf, verify_proof,
}
use skaus.Withdraw.Merkle.Laws.{compute_merkle_path-insert_leaf, verify_proof-compute_merkle_path}
use skaus.Notes.Encryption.RoundTrip.{from_hex-byte_digits}
use skaus.Deposit.Execution.{compute_commitment, compute_nullifier_hash}
use skaus.Wallet.Scan.{ScannedDeposit}
use skaus.Withdraw.Flow.{
  CircuitInputs, WithdrawRequest, poseidon_hash2, leaf_of, circuit_inputs, withdraw_fee, request_of,
  proved_request, execute_withdraw,
}

module _ (poseidon : List ℕ → ℕ) (field : (xs : List ℕ) → poseidon xs < 2 ^ 256) where
  -- 32 bytes of a hash are read as the hash, also from their hexadecimal text.
  read_back :
      (n : ℕ)
      → n < 2 ^ 256
      → bytes32_to_bigint (from_hex (byte_digits (bigint_to_bytes32_be n))) ≡ n
  read_back n h =
      ap bytes32_to_bigint (from_hex-byte_digits (bigint_to_bytes32_be n))
      ∙ (bytes32_to_bigint-bigint_to_bytes32_be n h).1

  hash_level-field :
      (bit current sibling : ℕ) → hash_level (poseidon_hash2 poseidon) bit current sibling < 2 ^ 256
  unfolding hash_level
  hash_level-field bit current sibling = elim (Bool-cases (bit == 0)) [
    | inl e ↦ rw e (field (current ∷ sibling ∷ []))
    | inr e ↦ rw e (field (sibling ∷ current ∷ []))
  ]

  climb-field :
      (zeros : List ℕ) (left level current idx : ℕ)
      → current < 2 ^ 256
      → (climb (poseidon_hash2 poseidon) zeros left level current idx).root < 2 ^ 256
  unfolding climb
  climb-field zeros zero level current idx h = h
  climb-field zeros (suc left) level current idx h =
      climb-field zeros left (suc level)
        (hash_level (poseidon_hash2 poseidon) (idx % 2) current (entry level zeros)) (idx / 2)
        (hash_level-field (idx % 2) current (entry level zeros))

  leaf_of-poseidon :
      (d : ScannedDeposit)
      → leaf_of poseidon d
        ≡ poseidon (d.note_data.secret ∷ d.note_data.nullifier ∷ d.note_data.amount ∷ [])
  unfolding compute_commitment
  leaf_of-poseidon d = (bytes32_to_bigint-bigint_to_bytes32_be _ (field _)).1

  root-field :
      (d : ScannedDeposit)
      → (compute_merkle_path (poseidon_hash2 poseidon) (leaf_of poseidon d) d.leaf_index).root
        < 2 ^ 256
  unfolding compute_merkle_path
  root-field d =
      climb-field (compute_zeros (poseidon_hash2 poseidon)) 20 0 (leaf_of poseidon d) d.leaf_index
        (rw (leaf_of-poseidon d) (field _))

  -- If hashes are field elements below 2 ^ 256, the recipient's address is decoded and the prover gives
  -- a proof: the request is made, its root is read as the circuit's, which is the root that the
  -- program computes when it inserts the deposit's commitment at its leaf index,
  -- the program's verification passes the circuit's path for that root, the nullifier hash is read as
  -- the circuit's, and amount and fee are the circuit's.
  pub execute_withdraw-circuit_inputs :
      (pool_account : Option Bytes) (key : Bytes) (prove : CircuitInputs → Option Groth16Proof)
      (d : ScannedDeposit) (recipient : String) (root : List ℕ) (proof : Groth16Proof)
      → let inputs = circuit_inputs poseidon d key (withdraw_fee poseidon d pool_account) in
        let leaf =
          poseidon (d.note_data.secret ∷ d.note_data.nullifier ∷ d.note_data.amount ∷ []) in
        prove inputs ≡ some proof
        → (r : WithdrawRequest) × (execute_withdraw poseidon false pool_account
              (some key)
              prove
              d
              recipient
              root
            ≡ some r)
          × (bytes32_to_bigint (from_hex r.merkle_root) ≡ inputs.merkle_root)
          × (inputs.merkle_root ≡ insert_leaf (poseidon_hash2 poseidon) leaf d.leaf_index)
          × (verify_proof
                (poseidon_hash2 poseidon)
                inputs.merkle_root
                leaf
                inputs.merkle_path
                inputs.path_indices
              ≡ true)
          × (bytes32_to_bigint (from_hex r.nullifier_hash) ≡ inputs.nullifier_hash)
          × (r.amount ≡ inputs.amount)
          × (r.fee ≡ inputs.fee)
  unfolding execute_withdraw proved_request circuit_inputs compute_nullifier_hash
  execute_withdraw-circuit_inputs pool_account key prove d recipient root proof h =
      let hash2 = poseidon_hash2 poseidon in
      let fee = withdraw_fee poseidon d pool_account in
      let inputs = circuit_inputs poseidon d key fee in
      (
        request_of poseidon d recipient fee (proof_to_bytes proof)
            (byte_digits (bigint_to_bytes32_be inputs.merkle_root)),
        rw h refl,
        read_back inputs.merkle_root (root-field d),
        compute_merkle_path-insert_leaf hash2 (leaf_of poseidon d) d.leaf_index
            ∙ ap (λ l. insert_leaf hash2 l d.leaf_index) (leaf_of-poseidon d),
        rw (← leaf_of-poseidon d)
            (verify_proof-compute_merkle_path hash2 (leaf_of poseidon d) d.leaf_index),
        ap bytes32_to_bigint
            (from_hex-byte_digits (compute_nullifier_hash poseidon d.note_data.nullifier)),
        refl,
        refl,
      )
