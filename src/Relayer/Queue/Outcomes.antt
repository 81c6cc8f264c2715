-- ===== src/Relayer/Queue/Outcomes.antt =====
-- How a job stands after a run: the normal life of a job, and what lost replies do to it.
use skaus.Prelude.{
  ℕ, ◌+◌, ◌≤◌, ◌<◌, String, ◌≡◌, refl, ◌≢◌, none, some, answered, lost, leb, if◌then◌else◌, arith,
  str_eq, some_unique, true, false,
}
use skaus.Prelude.Database.Rows.{Sees-found}
use skaus.Relayer.Job.{
  pending, confirmed, failed, WithdrawalJob, WithdrawParams, Outcome, sent, threw, Jobs, params_of,
}
use skaus.Relayer.Queue.{Replies, run_job, is_retryable}
use skaus.Relayer.Queue.Laws.{run_job-Sees, row_run}

-- The row that a run leaves if every query is answered.
abbrev pub finished : ℕ → Outcome → WithdrawalJob → WithdrawalJob
finished max_attempts (sent signature) j = record j {
  attempts = j.attempts + 1;
  status = confirmed;
  tx_signature = some signature;
  last_error = none;
}
finished max_attempts (threw message) j = record j {
  attempts = j.attempts + 1;
  status = if leb max_attempts (j.attempts + 1) then failed else pending;
  last_error = some message;
}

pub record AllAnswered (r : Replies) : Type 0 where
  pub counting : r.counting ≡ answered
  pub confirming : r.confirming ≡ answered
  pub settling : r.settling ≡ answered

row_run-finished :
    (n : ℕ) (r : Replies) (o : Outcome) (j : WithdrawalJob)
    → AllAnswered r
    → row_run n r o j ≡ finished n o j
row_run-finished n r (sent s) j a = ground arith
row_run-finished n r (threw s) j a = ground arith

row_run-attempts :
    (n : ℕ) (r : Replies) (o : Outcome) (j : WithdrawalJob)
    → (j.attempts ≤ (row_run n r o j).attempts)
      × ((row_run n r o j).attempts ≤ j.attempts + 1)
      × (params_of (row_run n r o j) ≡ params_of j)
      × ((row_run n r o j).nullifier_hash ≡ j.nullifier_hash)
row_run-attempts n r (sent s) j = ground arith
row_run-attempts n r (threw s) j = ground arith

row_run-confirmed :
    (n : ℕ) (r : Replies) (o : Outcome) (j j' : WithdrawalJob)
    → j.status ≢ confirmed
    → row_run n r o j ≡ j'
    → j'.status ≡ confirmed
    → (signature : String) × (o ≡ sent signature) × (j'.tx_signature ≡ some signature)
row_run-confirmed n r (sent s) j j' h e c = (s, refl, ground arith)
row_run-confirmed n r (threw s) j j' h e c = absurd (ground arith)

module _ (m : Jobs) (max_attempts : ℕ) (replies : Replies) (id : String) where
  open m use {Table, find}

  module _ (execute : WithdrawParams → Outcome) (params : WithdrawParams) (t : Table)
      (j : WithdrawalJob) (found : find id t ≡ some j) where
    -- A run of a job that is in the table, with every query answered, counts one attempt and then
    -- confirms the job with the signature, hands it back as pending with the message, or, at the
    -- last attempt, marks it failed with the message. No other row changes.
    pub run_job-finished :
        (k : String)
        → AllAnswered replies
        → find k (run_job m max_attempts replies id execute params t)
          ≡ (if str_eq id k then some (finished max_attempts (execute params) j) else find k t)
    run_job-finished k a =
        rw (← row_run-finished max_attempts replies (execute params) j a)
          ((run_job-Sees m id t max_attempts replies execute params j found).reads k)

    found_after :
        find id (run_job m max_attempts replies id execute params t)
        ≡ some (row_run max_attempts replies (execute params) j)
    found_after =
        Sees-found m id t _ _ (run_job-Sees m id t max_attempts replies execute params j found)

    -- Whatever becomes of the queries, a run counts at most one attempt, takes none back, and
    -- leaves what is to be withdrawn, by whom and under which nullifier, as it was.
    run_job-attempts :
        (j' : WithdrawalJob)
        → find id (run_job m max_attempts replies id execute params t) ≡ some j'
        → (j.attempts ≤ j'.attempts)
          × (j'.attempts ≤ j.attempts + 1)
          × (params_of j' ≡ params_of j)
          × (j'.nullifier_hash ≡ j.nullifier_hash)
    run_job-attempts j' h =
        rw (← some_unique found_after h) (row_run-attempts max_attempts replies (execute params) j)

    -- A job that was not confirmed is confirmed only with the signature that the executor returned.
    pub run_job-confirmed :
        (j' : WithdrawalJob)
        → j.status ≢ confirmed
        → find id (run_job m max_attempts replies id execute params t) ≡ some j'
        → j'.status ≡ confirmed
        → (signature : String) × (execute params ≡ sent signature)
          × (j'.tx_signature ≡ some signature)
    run_job-confirmed j' n h c =
        row_run-confirmed max_attempts replies (execute params) j j' n (some_unique found_after h) c

    -- The withdrawal went through, the query that confirms the job is lost, the next ones are
    -- answered, and attempts are left: the job is to be tried again, with no signature kept.
    pub run_job-sent_again :
        (signature : String)
        → execute params ≡ sent signature
        → replies.counting ≡ answered
        → replies.confirming ≡ lost
        → replies.settling ≡ answered
        → j.attempts + 1 < max_attempts
        → (j' : WithdrawalJob) × (find id (run_job m max_attempts replies id execute params t)
            ≡ some j')
          × (is_retryable max_attempts j' ≡ true)
          × (j'.tx_signature ≡ j.tx_signature)
    unfolding is_retryable
    run_job-sent_again signature e c f s h =
        (row_run max_attempts replies (execute params) j, found_after, ground arith, ground arith)

    -- The last attempt fails and the query that marks the job failed is lost: the handler resets
    -- the job to pending, and no poll takes it up again.
    run_job-stranded :
        (message : String)
        → execute params ≡ threw message
        → replies.counting ≡ answered
        → replies.settling ≡ lost
        → replies.resetting ≡ answered
        → max_attempts ≤ j.attempts + 1
        → (j' : WithdrawalJob) × (find id (run_job m max_attempts replies id execute params t)
            ≡ some j')
          × (j'.status ≡ pending)
          × (is_retryable max_attempts j' ≡ false)
    unfolding is_retryable
    run_job-stranded message e c s r h =
        (row_run max_attempts replies (execute params) j, found_after, ground arith, ground arith)
