-- ===== src/Deposit/Execution/Total.antt =====
-- From the payer's amount to what the recipient's scan of the chain finds.
use skaus.Prelude.{
  ℕ, suc, ◌^◌, ◌%◌, ◌≤◌, ◌<◌, ◌≡◌, refl, ap, ◌∙◌, String, Bool, true, inl, inr, Option, none, some,
  List, [], ◌∷◌, length, ltb, ltb→lt, Bool-cases,
}
use skaus.Prelude.Bytes.{Bytes, sum}
use skaus.Withdraw.Hex.Laws.{bytes32_to_bigint-bigint_to_bytes32_be}
use skaus.Relayer.Instruction.{Chain}
use skaus.Indexer.Events.Layout.{note_account}
use skaus.Notes.Encryption.{Primitives}
use skaus.Notes.Encryption.RoundTrip.{IsReadBack}
use skaus.Wallet.Scan.{ScannedDeposit, scan_deposits_on_chain}
use skaus.Wallet.Scan.Found.{scan_deposits_on_chain-found}
use skaus.Deposit.Tiers.{Token, min_deposit}
use skaus.Deposit.Tiers.Greedy.{plan_deposit-exact}
use skaus.Deposit.Transaction.{DepositInstruction, deposit_data, build_deposit_transaction}
use skaus.Deposit.Execution.{
  Draw, Payer, Made, DepositRun, executed, compute_commitment, note_for, sealed_for, commitment_for,
  made_of, make_deposit, and_then, execute_from, execute_plan, execute_deposit,
}

abbrev pub amounts : List Made → List ℕ
amounts [] = []
amounts (d ∷ ds) = d.amount ∷ amounts ds

abbrev pub found_amounts : List ScannedDeposit → List ℕ
found_amounts [] = []
found_amounts (d ∷ ds) = d.amount ∷ found_amounts ds

amounts-and_then :
    (o : Option Made) (rest : DepositRun) (tier : ℕ) (tiers : List ℕ)
    → ((d : Made) → o ≡ some d → d.amount ≡ tier)
    → (rest.complete ≡ true → amounts rest.made ≡ tiers)
    → (and_then o rest).complete ≡ true
    → amounts (and_then o rest).made ≡ tier ∷ tiers
amounts-and_then none rest tier tiers here there h = cc
amounts-and_then (some d) rest tier tiers here there h = rw (here d refl, there h) refl

-- A note of more than 32 bits of length is not sent.
build_deposit_transaction-size :
    (c : Chain) (seed depositor mint : Bytes) (amount : ℕ) (commitment sealed : Bytes)
    (i : DepositInstruction)
    → build_deposit_transaction c seed depositor mint amount commitment sealed ≡ some i
    → length sealed < 2 ^ 32
unfolding build_deposit_transaction deposit_data
build_deposit_transaction-size c seed depositor mint amount commitment sealed i h =
    elim (Bool-cases (ltb (length sealed) (2 ^ 32))) [
      | inl e ↦ ltb→lt (length sealed) (2 ^ 32) e
      | inr e ↦
          let refused : build_deposit_transaction c seed depositor mint amount commitment sealed
              ≡ none =
            rw (build_deposit_transaction, deposit_data, e) refl in
          cc
    ]

module _ (p : Primitives) (poseidon : List ℕ → ℕ) (payer : Payer) (s : Bytes)
    (draw : ℕ → Draw) where
  open p use {sha256, public_key, shared_secret}

  -- The deposits of the recipient's public key.
  abbrev made : ℕ → List ℕ → DepositRun
  made i tiers = execute_from p poseidon payer (public_key s) draw i tiers

  -- What a deposit that was made has at an index.
  record IsMade (i tier : ℕ) (d : Made) : Type 0 where
    amount : d.amount ≡ tier
    commitment : d.commitment ≡ commitment_for p poseidon payer (public_key s) draw i tier
    encrypted_note : d.encrypted_note ≡ sealed_for p poseidon payer (public_key s) draw i tier
    size : length (sealed_for p poseidon payer (public_key s) draw i tier) < 2 ^ 32

  made_of-IsMade :
      (i tier : ℕ) (o : Option DepositInstruction) (sent : Option String) (d : Made)
      → ((x : DepositInstruction)
          → o ≡ some x
          → length (sealed_for p poseidon payer (public_key s) draw i tier) < 2 ^ 32)
      → made_of p poseidon payer (public_key s) draw i tier o sent ≡ some d
      → IsMade i tier d
  unfolding made_of
  made_of-IsMade i tier none sent d small h = cc
  made_of-IsMade i tier (some x) none d small h = cc
  made_of-IsMade i tier (some x) (some signature) d small h = record {
    amount = cc;
    commitment = cc;
    encrypted_note = cc;
    size = small x refl;
  }

  make_deposit-IsMade :
      (i tier : ℕ) (d : Made)
      → make_deposit p poseidon payer (public_key s) draw i tier ≡ some d
      → IsMade i tier d
  unfolding make_deposit
  make_deposit-IsMade i tier d h =
      let commitment = commitment_for p poseidon payer (public_key s) draw i tier in
      let sealed = sealed_for p poseidon payer (public_key s) draw i tier in
      made_of-IsMade i tier
        (build_deposit_transaction payer.chain payer.deposit_note_seed payer.depositor
          payer.token_mint tier commitment sealed)
        (payer.send i) d
        (build_deposit_transaction-size payer.chain payer.deposit_note_seed payer.depositor
          payer.token_mint tier commitment sealed)
        h

  -- A run that was not broken off made a deposit of every tier.
  amounts-complete :
      (i : ℕ) (tiers : List ℕ)
      → (made i tiers).complete ≡ true
      → amounts (made i tiers).made ≡ tiers
  unfolding execute_from
  amounts-complete i [] h = refl
  amounts-complete i (tier ∷ tiers) h =
      amounts-and_then (make_deposit p poseidon payer (public_key s) draw i tier)
        (made (suc i) tiers) tier tiers (λ d e. (make_deposit-IsMade i tier d e).amount)
        (amounts-complete (suc i) tiers) h

  module _ (disc pool tail : Bytes) (place : ℕ → ℕ × ℕ) where
    -- The accounts that the program writes: the leaf index and the time are given by the place.
    abbrev pub accounts : ℕ → List Made → List Bytes
    accounts i [] = []
    accounts i (d ∷ ds) =
        note_account disc pool d.commitment d.encrypted_note (place i).0 (place i).1 tail
        ∷ accounts (suc i) ds

    -- What the libraries and the drawn values are relied on for: the keys agree, the sizes are theirs,
    -- hashes are field elements, and the texts of every note are read back.
    pub record IsSound : Type 0 where
      pub agree : (a b : Bytes) → shared_secret a (public_key b) ≡ shared_secret b (public_key a)
      pub keys : (k : Bytes) → length (public_key k) ≡ 32
      pub hash : (bs : Bytes) → length (sha256 bs) ≡ 32
      pub field : (xs : List ℕ) → poseidon xs < 2 ^ 256
      pub nonces : (i : ℕ) → length (draw i).nonce ≡ 12
      pub texts : (i tier : ℕ) → IsReadBack p (note_for p poseidon payer (public_key s) draw i tier)
      pub disc_size : length disc ≡ 8
      pub pool_size : length pool ≡ 32
      pub leaves : (i : ℕ) → (place i).0 < 2 ^ 32
      pub times : (i : ℕ) → (place i).1 < 2 ^ 63

    module _ (hex : Bytes → String) (includes_so : String → Bool) (sound : IsSound) where
      abbrev pub scan : List Bytes → List ScannedDeposit
      scan = scan_deposits_on_chain p s hex includes_so

      found-made :
          (i tier : ℕ) (d : Made) (after : List Bytes)
          → IsMade i tier d
          → found_amounts (
              scan (
                note_account disc pool d.commitment d.encrypted_note (place i).0 (place i).1 tail
                ∷ after))
            ≡ d.amount ∷ found_amounts (scan after)
      unfolding scan_deposits_on_chain compute_commitment
      found-made i tier d after m =
          let commitment = commitment_for p poseidon payer (public_key s) draw i tier in
          let sealed = sealed_for p poseidon payer (public_key s) draw i tier in
          let number = poseidon ((draw i).secret ∷ (draw i).nullifier ∷ tier ∷ []) in
          let size : length commitment ≡ 32 =
            (bytes32_to_bigint-bigint_to_bytes32_be number (sound.field _)).0 in
          rw (m.commitment, m.encrypted_note, m.amount)
            (ap found_amounts (
              scan_deposits_on_chain-found p sound.agree sound.keys sound.hash hex includes_so []
                after disc pool commitment tail (place i).0 (place i).1 (draw i).ephemeral_privkey s
                (draw i).nonce i (note_for p poseidon payer (public_key s) draw i tier)
                (sound.texts i tier) (sound.nonces i) refl sound.disc_size sound.pool_size size
                m.size (sound.leaves i) (sound.times i)))

      found-and_then :
          (i tier : ℕ) (o : Option Made) (rest : DepositRun)
          → ((d : Made) → o ≡ some d → IsMade i tier d)
          → found_amounts (scan (accounts (suc i) rest.made)) ≡ amounts rest.made
          → found_amounts (scan (accounts i (and_then o rest).made))
            ≡ amounts (and_then o rest).made
      unfolding scan_deposits_on_chain
      found-and_then i tier none rest here there = refl
      found-and_then i tier (some d) rest here there =
          found-made i tier d (accounts (suc i) rest.made) (here d refl) ∙ ap (◌∷◌ d.amount) there

      found-execute_from :
          (i : ℕ) (tiers : List ℕ)
          → found_amounts (scan (accounts i (made i tiers).made)) ≡ amounts (made i tiers).made
      unfolding execute_from scan_deposits_on_chain
      found-execute_from i [] = refl
      found-execute_from i (tier ∷ tiers) =
          found-and_then i tier (make_deposit p poseidon payer (public_key s) draw i tier)
            (made (suc i) tiers) (make_deposit-IsMade i tier) (found-execute_from (suc i) tiers)

      -- Under the conditions on the libraries and the drawn values: an amount that is a positive
      -- multiple of the token's smallest tier is executed, the scan of the accounts of the deposits
      -- that were made finds their amounts in their order, also if the run was broken off, and if it was
      -- not, these amounts add up to the amount.
      pub execute_deposit-found :
          (token : Token) (amount : ℕ)
          → min_deposit token ≤ amount
          → amount % min_deposit token ≡ 0
          → (e : DepositRun) × (execute_deposit p poseidon payer (public_key s) draw amount token
              ≡ some (executed e))
            × (found_amounts (scan (accounts 0 e.made)) ≡ amounts e.made)
            × (e.complete ≡ true → sum (found_amounts (scan (accounts 0 e.made))) ≡ amount)
      unfolding execute_deposit execute_plan
      execute_deposit-found token amount h e =
          let (ds, plan, total, among, preview) = plan_deposit-exact token amount h e in
          let run = made 0 ds in
          let found = found-execute_from 0 ds in
          (
            run,
            rw (execute_deposit, plan) refl,
            found,
            λ complete. ap sum (found ∙ amounts-complete 0 ds complete) ∙ total,
          )
