-- ===== src/Web/Withdrawals/Ends.antt =====
-- How a round of the withdrawals ends for its deposit, step by step.
use skaus.Prelude.{
  ℕ, ◌≡◌, refl, String, Bool, false, inl, inr, Option, none, some, List, [], ◌∷◌, str_eq,
  Option-cases,
}
use skaus.Prelude.Bytes.{Bytes}
use skaus.Wallet.Scan.{ScannedDeposit}
use skaus.Withdraw.Flow.{WithdrawRequest, execute_withdraw}
use skaus.Web.Withdrawals.{
  merkle_root_hex, sent, failed, submit_request, withdraw_with_root, Round, Outcome, attempt,
}
use skaus.Web.Withdrawals.Settled.{called}

-- What the rounds are answered, and where the withdrawals go.
module _ (poseidon : List ℕ → ℕ) (demo : Bool) (decode : String → Option Bytes) (rounds : ℕ → Round)
    (recipient : String) where
  abbrev pub request_of : Round → Option Bytes → ScannedDeposit → Option WithdrawRequest
  request_of r account d =
      execute_withdraw poseidon demo r.pool_account (decode recipient) r.prove d recipient
        (merkle_root_hex account)

  -- How a round ends for a deposit, by the step that fails, with the calls of `executeWithdraw`.
  pub data Ends (r : Round) (d : ScannedDeposit)
      : Outcome → List (ScannedDeposit × List ℕ) → Type 0 where
    no_root : r.root_query ≡ none → Ends r d (failed r.root_error) []
    not_proved :
        (account : Option Bytes)
        → r.root_query ≡ some account
        → request_of r account d ≡ none
        → Ends r d (failed r.prove_error) ((d, merkle_root_hex account) ∷ [])
    refused :
        (account : Option Bytes) (q : WithdrawRequest)
        → r.root_query ≡ some account
        → request_of r account d ≡ some q
        → r.submit q ≡ none
        → Ends r d (failed r.submit_error) ((d, merkle_root_hex account) ∷ [])
    accepted :
        (account : Option Bytes) (q : WithdrawRequest) (signature : String)
        → r.root_query ≡ some account
        → request_of r account d ≡ some q
        → r.submit q ≡ some signature
        → Ends r d (sent signature) ((d, merkle_root_hex account) ∷ [])

  submit_request-Ends :
      (r : Round) (account : Option Bytes) (d : ScannedDeposit) (o : Option WithdrawRequest)
      → r.root_query ≡ some account
      → request_of r account d ≡ o
      → Ends r d
          (submit_request poseidon demo decode rounds recipient r o)
          ((d, merkle_root_hex account) ∷ [])
  unfolding submit_request
  submit_request-Ends r account d none e f = not_proved account e f
  submit_request-Ends r account d (some q) e f = elim (Option-cases (r.submit q)) [
    | inl g ↦ rw g (refused account q e f g)
    | inr (signature, g) ↦ rw g (accepted account q signature e f g)
  ]

  withdraw_with_root-Ends :
      (r : Round) (o : Option (Option Bytes)) (d : ScannedDeposit)
      → r.root_query ≡ o
      → let a = withdraw_with_root poseidon demo decode rounds recipient r o d in Ends r d a.0 a.1
  unfolding withdraw_with_root
  withdraw_with_root-Ends r none d e = no_root e
  withdraw_with_root-Ends r (some account) d e =
      submit_request-Ends r account d (request_of r account d) e refl

  pub attempt-Ends :
      (i : ℕ) (d : ScannedDeposit)
      → let a = attempt poseidon demo decode rounds recipient i d in Ends (rounds i) d a.0 a.1
  unfolding attempt
  attempt-Ends i d = withdraw_with_root-Ends (rounds i) (rounds i).root_query d refl

  pub called-Ends :
      (k : String) (r : Round) (d : ScannedDeposit) (o : Outcome)
      (calls : List (ScannedDeposit × List ℕ))
      → Ends r d o calls
      → str_eq d.id k ≡ false
      → called k calls ≡ 0
  called-Ends k r d o calls (no_root e) h = refl
  called-Ends k r d o calls (not_proved account e f) h = rw h refl
  called-Ends k r d o calls (refused account q e f g) h = rw h refl
  called-Ends k r d o calls (accepted account q s e f g) h = rw h refl
