-- ===== src/Relayer/Poll.antt =====
-- packages/relayer/src/queue.ts, the poll loop: `start`, `stop`, `_scheduleNextPoll` and `_poll`, cut
-- where it awaits a query. Other callbacks may run between two parts.
pub mod Timers
pub mod Rounds
pub mod Marking
use skaus.Prelude.{
  ℕ, suc, ◌+◌, ◌-◌, ◌*◌, String, Bool, true, false, Option, none, some, List, [], ◌∷◌, Reply,
  answered, lost, late, ltb, ◌==◌, if◌then◌else◌, min, length, map, Model,
}
use skaus.Relayer.Job.{JobStatus, pending, processing, WithdrawalJob, Jobs}

-- The fields of `config.relayer` that the loop reads.
pub record Config : Type 0 where
  pub max_concurrent : ℕ
  pub max_attempts : ℕ
  pub poll_interval_ms : ℕ

-- A call of `setTimeout` that has not fired and was not cleared: its handle and its delay.
pub record Timeout : Type 0 where
  pub handle : ℕ
  pub delay : ℕ

-- The fields of `QueueProcessor`, and the host's timers that call `_poll`.
pub record Processor : Type 0 where
  pub running : Bool
  pub timer : Option ℕ
  pub active_jobs : ℕ
  pub backoff_ms : ℕ
  pub timeouts : List Timeout
  pub next_handle : ℕ

abbrev pub backoff_initial_ms : ℕ
backoff_initial_ms = 1_000

abbrev pub backoff_max_ms : ℕ
backoff_max_ms = 30_000

abbrev pub fresh : Processor
fresh = record {
  running = false;
  timer = none;
  active_jobs = 0;
  backoff_ms = 0;
  timeouts = [];
  next_handle = 0;
}

-- A timeout that fires or is cleared is pending no more.
unfoldable pub clear : ℕ → List Timeout → List Timeout
clear h [] = []
clear h (x ∷ xs) = if x.handle == h then clear h xs else x ∷ clear h xs

module _ (c : Config) where
  unfoldable pub schedule_next_poll : Processor → Processor
  schedule_next_poll p =
      if p.running
      then record p {
        timer = some p.next_handle;
        timeouts =
            record {
              handle = p.next_handle;
              delay = if ltb 0 p.backoff_ms then p.backoff_ms else c.poll_interval_ms;
            }
            ∷ p.timeouts;
        next_handle = suc p.next_handle;
      }
      else p

  unfoldable pub start : Processor → Processor
  start p = if p.running then p else schedule_next_poll (record p { running = true })

  -- The `catch` of `_poll`.
  unfoldable pub back_off : Processor → Processor
  back_off p = record p {
    backoff_ms =
        if p.backoff_ms == 0 then backoff_initial_ms else min (p.backoff_ms * 2) backoff_max_ms;
  }

  -- `_poll` up to its first query, called by the timeout `h`: the capacity to fetch for, or `none`
  -- after the early return. The `finally` runs on the early return too.
  unfoldable pub begin_poll : ℕ → Processor → Processor × Option ℕ
  begin_poll h q =
      let p : Processor = record q { timer = none; timeouts = clear h q.timeouts } in
      if ltb p.active_jobs c.max_concurrent
      then (p, some (c.max_concurrent - p.active_jobs))
      else (schedule_next_poll (schedule_next_poll p), none)

  -- `_poll` from the answer to `findMany` (`none` if it threw) up to the next query.
  unfoldable pub fetched : Option (List WithdrawalJob) → Processor → Processor × List WithdrawalJob
  fetched none p = (schedule_next_poll (back_off p), [])
  fetched (some []) p = (schedule_next_poll (schedule_next_poll (record p { backoff_ms = 0 })), [])
  fetched (some (j ∷ js)) p = (record p { backoff_ms = 0 }, j ∷ js)

  -- `_poll` from the answer to `updateMany`: the jobs that it starts.
  unfoldable pub marked : Reply → List WithdrawalJob → Processor → Processor × List WithdrawalJob
  marked answered jobs p =
      (schedule_next_poll (record p { active_jobs = p.active_jobs + length jobs }), jobs)
  marked _ jobs p = (schedule_next_poll (back_off p), [])

  abbrev go_on : Reply → Processor × List WithdrawalJob → Processor × List WithdrawalJob
  go_on reply (p, []) = (p, [])
  go_on reply (p, j ∷ js) = marked reply (j ∷ js) p

  -- A poll by the timeout `h` that no other callback comes between: what `findMany` answers to a
  -- capacity, and the reply to `updateMany`.
  unfoldable pub poll :
      ℕ → (ℕ → Option (List WithdrawalJob)) → Reply → Processor → Processor × List WithdrawalJob
  unfolding begin_poll fetched marked
  poll h answer reply q =
      let (p, capacity) = begin_poll h q in
      elim capacity [ none ↦ (p, []) | some n ↦ go_on reply (fetched (answer n) p) ]

-- The `finally` that `_poll` hangs on a job.
unfoldable pub job_done : Processor → Processor
job_done p = record p { active_jobs = p.active_jobs - 1 }

unfoldable pub stop : Processor → Processor
stop p = elim p.timer [
  | none ↦ record p { running = false }
  | some h ↦ record p { running = false; timer = none; timeouts = clear h p.timeouts }
]

abbrev pub is_pending : JobStatus → Bool
is_pending pending = true
is_pending _ = false

module _ (m : Jobs) where
  open m use {Table, find, update}

  unfoldable pub mark_one : String → Table → Table
  mark_one id t = elim (find id t) [
    | none ↦ t
    | some j ↦ if is_pending j.status then update (record j { status = processing }) t else t
  ]

  -- `updateMany` with `id: { in: ids }, status: 'pending'`.
  unfoldable pub mark_processing : List String → Table → Table
  unfolding mark_one
  mark_processing [] t = t
  mark_processing (id ∷ ids) t = mark_processing ids (mark_one id t)
