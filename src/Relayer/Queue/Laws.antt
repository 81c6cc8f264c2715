-- ===== src/Relayer/Queue/Laws.antt =====
-- What one run of a job does to the table of jobs.
use skaus.Prelude.{ℕ, String, ◌≡◌, refl, some, Reply, answered, lost, late}
use skaus.Prelude.Database.Rows.{Sees, Sees-found, Sees-start, Sees-update}
use skaus.Relayer.Job.{WithdrawalJob, WithdrawParams, Outcome, sent, threw, Jobs}
use skaus.Relayer.Queue.{
  Replies, Ended, returned, thrown, write, count_attempt, confirm, next_status, give_back, reset,
  settle, conclude, process_job, run_job,
}

-- The same run on one row, with no table around it.
abbrev pub row_write {ℓ} :
    {A : Type ℓ}
    → Reply
    → (WithdrawalJob → WithdrawalJob)
    → (WithdrawalJob → A)
    → (WithdrawalJob → A)
    → WithdrawalJob
    → A
row_write answered change failing going j = going (change j)
row_write lost change failing going j = failing j
row_write late change failing going j = failing (change j)

module _ (max_attempts : ℕ) (replies : Replies) where
  abbrev pub row_settle : ℕ → String → WithdrawalJob → WithdrawalJob × Ended
  row_settle n message =
      row_write replies.settling (give_back (next_status max_attempts n) message) (λ j. (j, thrown))
        (λ j. (j, returned))

  abbrev pub row_conclude : ℕ → Outcome → WithdrawalJob → WithdrawalJob × Ended
  row_conclude n (threw message) = row_settle n message
  row_conclude n (sent signature) =
      row_write replies.confirming (confirm signature) (row_settle n replies.confirm_error)
        (λ j. (j, returned))

  abbrev pub row_process : Outcome → WithdrawalJob → WithdrawalJob × Ended
  row_process outcome =
      row_write replies.counting count_attempt (λ j. (j, thrown))
        (λ j. row_conclude j.attempts outcome j)

  abbrev pub row_catch : WithdrawalJob × Ended → WithdrawalJob
  row_catch (j, returned) = j
  row_catch (j, thrown) = row_write replies.resetting reset (λ j. j) (λ j. j) j

  abbrev pub row_run : Outcome → WithdrawalJob → WithdrawalJob
  row_run outcome j = row_catch (row_process outcome j)

module _ (m : Jobs) (id : String) (t : m.Table) where
  open m use {Table, find, update}

  -- A write on the table and on the row: what holds of all that may follow holds of the whole.
  write-row :
      {A B : Type 0} (P : B → A → Type 0) (r : Reply) (f : WithdrawalJob → WithdrawalJob)
      (failing : Table → A) (going : WithdrawalJob → Table → A)
      (failing' going' : WithdrawalJob → B) (j : WithdrawalJob) (t' : Table)
      → (f j).id ≡ j.id
      → Sees m id t j t'
      → ((k : WithdrawalJob) (u : Table) → Sees m id t k u → P (failing' k) (failing u))
      → ((k : WithdrawalJob) (u : Table) → Sees m id t k u → P (going' k) (going k u))
      → P (row_write r f failing' going' j) (write m r id f failing going t')
  unfolding write
  write-row P answered f a b a' b' j t' e s x y =
      rw (Sees-found m id t t' j s, write) (y (f j) _ (Sees-update m id t t' j (f j) e s))
  write-row P lost f a b a' b' j t' e s x y = rw (Sees-found m id t t' j s, write) (x j t' s)
  write-row P late f a b a' b' j t' e s x y =
      rw (Sees-found m id t t' j s, write) (x (f j) _ (Sees-update m id t t' j (f j) e s))

  module _ (max_attempts : ℕ) (replies : Replies) where
    -- A computation on the table does to the row what `q` says, and ends as `q` does.
    abbrev Does : WithdrawalJob × Ended → Table × Ended → Type 0
    Does q p = Sees m id t q.0 p.0 × (p.1 ≡ q.1)

    settle-Does :
        (n : ℕ) (message : String) (j : WithdrawalJob) (t' : Table)
        → Sees m id t j t'
        → Does
            (row_settle max_attempts replies n message j)
            (settle m max_attempts replies id n message t')
    unfolding settle
    settle-Does n message j t' s =
        write-row Does replies.settling _ _ _ _ _ j t' refl s (λ k u h. (h, refl))
          (λ k u h. (h, refl))

    conclude-Does :
        (n : ℕ) (outcome : Outcome) (j : WithdrawalJob) (t' : Table)
        → Sees m id t j t'
        → Does
            (row_conclude max_attempts replies n outcome j)
            (conclude m max_attempts replies id n outcome t')
    unfolding conclude
    conclude-Does n (threw message) j t' s = settle-Does n message j t' s
    conclude-Does n (sent signature) j t' s =
        write-row Does replies.confirming _ _ _ _ _ j t' refl s
          (settle-Does n replies.confirm_error) (λ k u h. (h, refl))

    process_job-Does :
        (execute : WithdrawParams → Outcome) (params : WithdrawParams) (j : WithdrawalJob)
        (t' : Table)
        → Sees m id t j t'
        → Does
            (row_process max_attempts replies (execute params) j)
            (process_job m max_attempts replies id execute params t')
    unfolding process_job
    process_job-Does execute params j t' s =
        write-row Does replies.counting _ _ _ _ _ j t' refl s (λ k u h. (h, refl))
          (λ k u h. conclude-Does k.attempts (execute params) k u h)

    catch-Sees :
        (q : WithdrawalJob × Ended) (p : Table × Ended)
        → Does q p
        → Sees m id t (row_catch max_attempts replies q) (elim p.1 [
          | returned ↦ p.0
          | thrown ↦ write m replies.resetting id reset (λ t. t) (λ j t. t) p.0
        ])
    catch-Sees (j, returned) (u, e) (s, h) = rw h s
    catch-Sees (j, thrown) (u, e) (s, h) =
        rw h
          (write-row (Sees m id t) replies.resetting _ _ _ _ _ j u refl s (λ k u h. h) (λ k u h. h))

    -- Whatever the replies, a run of a job does to the job's row what `row_run` says, and nothing
    -- to any other row.
    pub run_job-Sees :
        (execute : WithdrawParams → Outcome) (params : WithdrawParams) (j : WithdrawalJob)
        → find id t ≡ some j
        → Sees m id t
            (row_run max_attempts replies (execute params) j)
            (run_job m max_attempts replies id execute params t)
    unfolding run_job
    run_job-Sees execute params j h =
        catch-Sees _ _ (process_job-Does execute params j t (Sees-start m id t j h))
