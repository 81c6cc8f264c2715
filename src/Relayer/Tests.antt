-- ===== src/Relayer/Tests.antt =====
-- Runs of the relayer at concrete inputs.
use skaus.Prelude.{
  ℕ, ◌+◌, ◌≤◌, String, ◌≡◌, refl, inl, inr, true, none, some, [], ◌∷◌, answered, lost, length,
  replicate, arith, if◌then◌else◌, ◌==◌,
}
use skaus.Prelude.Bytes.{Bytes, le_bytes, concat}
use skaus.Prelude.Database.{history}
use skaus.Relayer.Job.{
  pending, processing, WithdrawalJob, WithdrawParams, Outcome, sent, threw, Jobs, params_of,
}
use skaus.Relayer.Queue.{Replies, run_job, process_job, conclude, settle, write, is_retryable}
use skaus.Relayer.Queue.Outcomes.{run_job-finished, run_job-confirmed, run_job-sent_again, finished}
use skaus.Relayer.Poll.{Config, Processor, poll}
use skaus.Relayer.Poll.Timers.{poll-timeouts}
use skaus.Relayer.Poll.Rounds.{poll-active}
use skaus.Relayer.Instruction.{
  Host, ok, prepare, check_sizes, encode, build_withdraw_instruction_data, u64_le,
  withdraw_discriminator,
}
use skaus.Relayer.Instruction.Layout.{IsChecked, prepare-IsChecked}
use skaus.Relayer.Executor.{execute, returned}
use skaus.Relayer.Executor.Retries.{backoffs, execute-sent}
use skaus.Relayer.Routes.{EnqueueBody, duplicate, fits_schema, enqueue}
use skaus.Relayer.Routes.Enqueue.{enqueue_twice}

abbrev db : Jobs
db = history (λ j. j.id) (λ j. j.nullifier_hash)

abbrev job : WithdrawalJob
job = record {
  id = "a";
  proof_base64 = "proof";
  merkle_root = "root";
  nullifier_hash = "nullifier";
  recipient = "recipient";
  amount = "100";
  fee = "1";
  token_mint = "mint";
  status = processing;
  tx_signature = none;
  attempts = 0;
  last_error = none;
}

abbrev fine : Replies
fine = record {
  counting = answered;
  confirming = answered;
  confirm_error = "timed out";
  settling = answered;
  resetting = answered;
}

abbrev sends : WithdrawParams → Outcome
sends p = sent "sig"

run_job-finished_example :
    db.find "a" (run_job db 3 fine "a" sends (params_of job) (job ∷ []))
    ≡ some (finished 3 (sent "sig") job)
run_job-finished_example =
    run_job-finished db 3 fine "a" sends (params_of job) (job ∷ []) job refl "a"
      (record { counting = refl; confirming = refl; settling = refl })

abbrev half_lost : Replies
half_lost = record fine { confirming = lost }

after_send :
    db.find "a" (run_job db 3 fine "a" sends (params_of job) (job ∷ []))
    ≡ some (finished 3 (sent "sig") job)
unfolding run_job process_job conclude settle write
after_send = refl

run_job-confirmed_example :
    (signature : String) × (sends (params_of job) ≡ sent signature)
    × ((finished 3 (sent "sig") job).tx_signature ≡ some signature)
run_job-confirmed_example =
    run_job-confirmed db 3 fine "a" sends (params_of job) (job ∷ []) job refl
      (finished 3 (sent "sig") job) (λ e. cc) after_send refl

run_job-sent_again_example :
    (j' : WithdrawalJob) × (db.find "a"
        (run_job db 3 half_lost "a" sends (params_of job) (job ∷ []))
      ≡ some j')
    × (is_retryable 3 j' ≡ true)
    × (j'.tx_signature ≡ none)
run_job-sent_again_example =
    run_job-sent_again db 3 half_lost "a" sends (params_of job) (job ∷ []) job refl "sig" refl refl
      refl refl (omega arith)

abbrev config : Config
config = record { max_concurrent = 2; max_attempts = 3; poll_interval_ms = 10_000 }

abbrev idle : Processor
idle = record {
  running = true;
  timer = some 1;
  active_jobs = 0;
  backoff_ms = 0;
  timeouts = record { handle = 1; delay = 10_000 } ∷ record { handle = 0; delay = 10_000 } ∷ [];
  next_handle = 2;
}

poll-timeouts_example : length (poll config 0 (λ n. some []) answered idle).0.timeouts ≡ 3
poll-timeouts_example =
    poll-timeouts config 0 (λ n. some []) answered idle refl (omega arith) (inr (inl refl))

poll-active_example :
    let r = poll config 0 (λ n. some (job ∷ [])) answered idle in
    (r.0.active_jobs ≡ 0 + length r.1) × (r.0.active_jobs ≤ 2)
poll-active_example =
    poll-active config 0 (λ n. some (job ∷ [])) answered idle (omega arith) (omega arith)

abbrev key32 : String
key32 = "0123456789abcdef0123456789abcdef"

abbrev hex64 : String
hex64 = "0123456789abcdef0123456789abcdef0123456789abcdef0123456789abcdef"

abbrev body : EnqueueBody
body = record {
  proof_base64 = "proof";
  merkle_root = hex64;
  nullifier_hash = hex64;
  recipient = key32;
  amount = "100";
  fee = "1";
  token_mint = key32;
}

abbrev decode : String → Bytes
decode s = replicate 256 0

body_fits : fits_schema body ≡ true
unfolding fits_schema
body_fits = refl

body_fits_too : fits_schema (record body { amount = "7" }) ≡ true
unfolding fits_schema
body_fits_too = refl

enqueue_twice_example :
    enqueue db decode "b" (record body { amount = "7" }) (enqueue db decode "a" body []).0
    ≡ ((enqueue db decode "a" body []).0, duplicate "a" pending none)
enqueue_twice_example =
    enqueue_twice db decode "a" "b" body (record body { amount = "7" }) [] body_fits body_fits_too
      refl refl refl refl

abbrev zeros : ℕ → Bytes
zeros n = replicate n 0

abbrev host : Host
host = record {
  base64 = λ s. zeros 256;
  hex = λ s. zeros 32;
  public_key = λ s. some (zeros 32);
  big_int = λ s. some 5;
}

abbrev data_of_five : Bytes
data_of_five = concat (
    withdraw_discriminator
    ∷ zeros 64
    ∷ zeros 128
    ∷ zeros 64
    ∷ zeros 32
    ∷ zeros 32
    ∷ (5 ∷ zeros 7)
    ∷ zeros 32
    ∷ [])

prepared : prepare host (params_of job) ≡ ok data_of_five
unfolding prepare check_sizes encode build_withdraw_instruction_data u64_le le_bytes
prepared = refl

prepare-IsChecked_example : IsChecked host (params_of job) data_of_five
prepare-IsChecked_example = prepare-IsChecked host (params_of job) data_of_five prepared

abbrev third_time : ℕ → Outcome
third_time i = if i == 3 then sent "sig" else threw "busy"

execute-sent_example : execute 3 third_time ≡ (returned "sig", backoffs 1 2)
execute-sent_example =
    execute-sent 3 third_time 2 (λ i. "busy") "sig" (λ i h. ground arith) refl (omega arith)
