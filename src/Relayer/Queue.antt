-- ===== src/Relayer/Queue.antt =====
-- packages/relayer/src/queue.ts, one job: `_processJob`, and the handlers that `_poll` hangs on it.
-- The executor and the replies of the database are arguments.
pub mod Laws
pub mod Outcomes
use skaus.Prelude.{
  ℕ, suc, ◌+◌, String, ◌≡◌, Bool, true, false, Option, none, some, Reply, answered, lost, late, leb,
  ltb, if◌then◌else◌, Model,
}
use skaus.Relayer.Job.{
  JobStatus, pending, processing, confirmed, failed, WithdrawalJob, WithdrawParams, Outcome, sent,
  threw, Jobs,
}

-- How each query of one run of a job comes out, in the order of the code.
pub record Replies : Type 0 where
  pub counting : Reply
  pub confirming : Reply
  pub confirm_error : String
  pub settling : Reply
  pub resetting : Reply

-- `_processJob` returns, or throws to the handlers of `_poll`.
pub data Ended : Type 0 where
  returned thrown : Ended

abbrev pub count_attempt : WithdrawalJob → WithdrawalJob
count_attempt j = record j { attempts = j.attempts + 1 }

abbrev pub confirm : String → WithdrawalJob → WithdrawalJob
confirm signature j = record j {
  status = confirmed;
  tx_signature = some signature;
  last_error = none;
}

abbrev pub next_status : ℕ → ℕ → JobStatus
next_status max_attempts attempt_number =
    if leb max_attempts attempt_number then failed else pending

abbrev pub give_back : JobStatus → String → WithdrawalJob → WithdrawalJob
give_back status message j = record j { status = status; last_error = some message }

abbrev pub reset : WithdrawalJob → WithdrawalJob
reset j = record j { status = pending }

module _ (m : Jobs) where
  open m use {Table, find, update}

  -- `withTimeout(prisma.withdrawalJob.update(…))`, with what the code goes on to: `threw` if the
  -- query fails, no row has the id, or the time is up, and `then` with the row as written.
  unfoldable pub write {ℓ} :
      {A : Type ℓ}
      → Reply
      → String
      → (WithdrawalJob → WithdrawalJob)
      → (Table → A)
      → (WithdrawalJob → Table → A)
      → Table
      → A
  write reply id change failing going t = elim (find id t) [
    | none ↦ failing t
    | some j ↦ elim reply [
      | answered ↦ going (change j) (update (change j) t)
      | lost ↦ failing t
      | late ↦ failing (update (change j) t)
    ]
  ]

  module _ (max_attempts : ℕ) (replies : Replies) (id : String) where
    -- The `catch` of `_processJob`.
    unfoldable pub settle : ℕ → String → Table → Table × Ended
    settle attempt_number message =
        write replies.settling id (give_back (next_status max_attempts attempt_number) message)
          (λ t. (t, thrown)) (λ j t. (t, returned))

    -- The `try` of `_processJob`, once the executor is through.
    unfoldable pub conclude : ℕ → Outcome → Table → Table × Ended
    conclude attempt_number (threw message) = settle attempt_number message
    conclude attempt_number (sent signature) =
        write replies.confirming id (confirm signature)
          (settle attempt_number replies.confirm_error) (λ j t. (t, returned))

    unfoldable pub process_job : (WithdrawParams → Outcome) → WithdrawParams → Table → Table × Ended
    process_job execute params =
        write replies.counting id count_attempt (λ t. (t, thrown))
          (λ updated. conclude updated.attempts (execute params))

    -- The `.catch` that `_poll` hangs on `_processJob`.
    unfoldable pub run_job : (WithdrawParams → Outcome) → WithdrawParams → Table → Table
    run_job execute params t =
        let (t', ended) = process_job execute params t in
        elim ended [
          | returned ↦ t'
          | thrown ↦ write replies.resetting id reset (λ t. t) (λ j t. t) t'
        ]

-- The filter of `_poll`'s query: `status: 'pending'`, `attempts: { lt: maxAttempts }`.
unfoldable pub is_retryable : ℕ → WithdrawalJob → Bool
is_retryable max_attempts j = elim j.status [ pending ↦ ltb j.attempts max_attempts | _ ↦ false ]
