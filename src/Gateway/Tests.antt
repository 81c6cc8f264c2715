-- ===== src/Gateway/Tests.antt =====
-- Runs of the gateway's submissions at concrete inputs.
use skaus.Prelude.{
  ℕ, zero, suc, ◌≤◌, ◌≡◌, refl, true, some, List, [], ◌∷◌, ◌++◌, replicate, take, drop, get_elem?,
}
use skaus.Prelude.Bytes.{Bytes, concat}
use skaus.Relayer.Instruction.{Chain, derive_accounts}
use skaus.Gateway.Accounts.{PublicInputs, account_meta, derive_withdraw_accounts}
use skaus.Gateway.Accounts.Agreement.{derive_withdraw_accounts-derive_accounts}
use skaus.Gateway.Submission.{
  RelayService, Attempt, failed, uncounted, confirmed, began, begin_submission,
}
use skaus.Gateway.Submission.Capacity.{at_rest, begins, Reaches-capacity}

-- The first attempt goes through and is not counted, the second fails, the others go through.
abbrev run : ℕ → Attempt
run zero = uncounted "first" "no table"
run (suc zero) = failed "no blockhash"
run (suc (suc n)) = confirmed "third"

abbrev service : RelayService
service = record {
  has_keypair = true;
  max_pending_txs = 2;
  pending_tx_count = 0;
  total_relayed = 7;
}

abbrev busy : RelayService
busy = record service { pending_tx_count = 1 }

busy_began : begin_submission service ≡ began busy
unfolding begin_submission
busy_began = refl

Reaches-capacity_example : (busy.pending_tx_count ≡ 1) × (1 ≤ busy.max_pending_txs)
Reaches-capacity_example =
    Reaches-capacity 1 busy (begins 0 service busy (at_rest service refl) busy_began)

abbrev inputs : PublicInputs
inputs = record { merkle_root = ""; nullifier_hash = ""; recipient = ""; amount = "5"; fee = "0" }

abbrev fields : List Bytes
fields =
    replicate 8 0
    ∷ replicate 32 1
    ∷ replicate 32 2
    ∷ replicate 2 3
    ∷ replicate 8 4
    ∷ replicate 8 5
    ∷ replicate 8 6
    ∷ replicate 8 7
    ∷ replicate 8 8
    ∷ replicate 8 9
    ∷ replicate 4 10
    ∷ replicate 1 11
    ∷ []

abbrev vault : Bytes
vault = replicate 32 13

abbrev chain : Chain
chain = record {
  program_address = λ seeds. concat seeds;
  token_address = λ mint owner. mint;
  account_data = λ k. some (concat fields ++ (replicate 32 12 ++ (vault ++ 14 ∷ [])));
  relayer = 1 ∷ [];
  token_program = 2 ∷ [];
  system_program = 3 ∷ [];
  stealth_pool_seed = 4 ∷ [];
  merkle_roots_seed = 5 ∷ [];
  nullifier_seed = 6 ∷ [];
}

derive_withdraw_accounts-derive_accounts_example :
    let here = derive_withdraw_accounts chain (7 ∷ []) (8 ∷ []) (9 ∷ []) in
    let there = derive_accounts chain (7 ∷ []) (8 ∷ []) (9 ∷ []) in
    (get_elem? here 5 ≡ some (account_meta vault))
    × (take 5 here ≡ take 5 there)
    × (drop 6 here ≡ drop 6 there)
derive_withdraw_accounts-derive_accounts_example =
    derive_withdraw_accounts-derive_accounts chain (7 ∷ []) (8 ∷ []) (9 ∷ []) fields
      (replicate 32 12) vault (14 ∷ []) refl
      (
        refl,
        (refl, (refl, (refl, (refl, (refl, (refl, (refl, (refl, (refl, (refl, (refl, tt))))))))))),
      )
      refl refl
