-- ===== src/Gateway/Submission.antt =====
-- apps/gateway/src/services/relay.ts: `submitWithdrawal` and the state of `RelayService`. What the
-- chain and the metrics table answer is an argument.
pub mod Attempts
pub mod Capacity
use skaus.Prelude.{
  ℕ, zero, suc, ◌+◌, ◌-◌, ◌*◌, ◌/◌, ◌^◌, String, Bool, true, false, Option, none, some, List, [],
  ◌∷◌, ◌++◌, ltb, leb, if◌then◌else◌, length, get_elem?, max,
}
use skaus.Prelude.Bytes.{Bytes}
use skaus.Relayer.Instruction.{Result, ok, err, Fault, Host}
use skaus.Relayer.Executor.{sort}
use skaus.Gateway.Accounts.{PublicInputs, prepare_withdrawal}

pub record RelayService : Type 0 where
  pub has_keypair : Bool
  pub max_pending_txs : ℕ
  pub pending_tx_count : ℕ
  pub total_relayed : ℕ

-- What one attempt came to: an error, a confirmed signature with an error from the write of the
-- metrics behind it, or a confirmed signature that was counted.
pub data Attempt : Type 0 where
  failed : String → Attempt
  uncounted : String → String → Attempt
  confirmed : String → Attempt

pub data Submitted : Type 0 where
  no_keypair at_capacity unreachable : Submitted
  rejected : Fault → Submitted
  relayed : String → Submitted
  gave_up : Option String → Submitted

-- The loop of attempts: its reply, the count of relayed withdrawals, the signatures that were
-- confirmed, the oldest first, and the sleeps.
pub record Progress : Type 0 where
  pub reply : Submitted
  pub total : ℕ
  pub signatures : List String
  pub slept : List ℕ

abbrev pub max_submit_attempts : ℕ
max_submit_attempts = 3

abbrev pub pause : ℕ → List ℕ
pause attempt = if ltb attempt (max_submit_attempts - 1) then 500 * 2 ^ attempt ∷ [] else []

-- The rounds left, the attempt, the last error and the count. An error of the write of the
-- metrics is caught as a failed attempt is.
unfoldable pub attempt_from : (ℕ → Attempt) → ℕ → ℕ → Option String → ℕ → Progress
attempt_from run zero attempt last total = record {
  reply = gave_up last;
  total = total;
  signatures = [];
  slept = [];
}
attempt_from run (suc rounds) attempt last total = elim (run attempt) [
  | failed message ↦
      let rest = attempt_from run rounds (attempt + 1) (some message) total in
      record rest { slept = pause attempt ++ rest.slept }
  | uncounted signature message ↦
      let rest = attempt_from run rounds (attempt + 1) (some message) (total + 1) in
      record rest { signatures = signature ∷ rest.signatures; slept = pause attempt ++ rest.slept }
  | confirmed signature ↦ record {
    reply = relayed signature;
    total = total + 1;
    signatures = signature ∷ [];
    slept = [];
  }
]

unfoldable pub submit_attempts : (ℕ → Attempt) → ℕ → Progress
submit_attempts run total = attempt_from run max_submit_attempts 0 none total

-- The two guards, and `pendingTxCount++`: the refusal, or the state behind them.
pub data Began : Type 0 where
  refused : Submitted → Began
  began : RelayService → Began

unfoldable pub begin_submission : RelayService → Began
begin_submission s =
    if s.has_keypair
    then (if leb s.max_pending_txs s.pending_tx_count
        then refused at_capacity
        else began (record s { pending_tx_count = s.pending_tx_count + 1 }))
    else refused no_keypair

-- The `finally` block.
unfoldable pub end_submission : RelayService → RelayService
end_submission s = record s { pending_tx_count = s.pending_tx_count - 1 }

abbrev no_attempt : Submitted → RelayService → Progress
no_attempt reply s = record { reply = reply; total = s.total_relayed; signatures = []; slept = [] }

-- The body of `try`: whether the chain answered the queries for the accounts, then the attempts.
unfoldable pub run_submission : Result Bytes → Bool → (ℕ → Attempt) → RelayService → Progress
run_submission (err fault) answered run s = no_attempt (rejected fault) s
run_submission (ok bytes) answered run s =
    if answered then submit_attempts run s.total_relayed else no_attempt unreachable s

unfoldable pub submit_withdrawal :
    Host → String → PublicInputs → Bool → (ℕ → Attempt) → RelayService → RelayService × Progress
submit_withdrawal host proof_base64 inputs answered run s = elim (begin_submission s) [
  | refused reply ↦ (s, no_attempt reply s)
  | began s' ↦
      let progress = run_submission (prepare_withdrawal host proof_base64 inputs) answered run s' in
      (end_submission (record s' { total_relayed = progress.total }), progress)
]

-- `init`: the persisted count, if there is one.
unfoldable pub restore : Option ℕ → RelayService → RelayService
restore none s = s
restore (some total) s = record s { total_relayed = total }

abbrev pub min_priority_fee : ℕ
min_priority_fee = 1_000

-- The samples, or `none` if the query threw. `Math.floor(length * 0.75)` is the 75th percentile.
unfoldable pub estimate_submission_fee : Option (List ℕ) → ℕ
estimate_submission_fee none = min_priority_fee
estimate_submission_fee (some []) = min_priority_fee
estimate_submission_fee (some (x ∷ xs)) =
    let sorted = sort (x ∷ xs) in
    elim (get_elem? sorted (length sorted * 3 / 4)) [
      | none ↦ min_priority_fee
      | some fee ↦ max fee min_priority_fee
    ]
