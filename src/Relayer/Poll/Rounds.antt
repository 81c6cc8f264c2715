-- ===== src/Relayer/Poll/Rounds.antt =====
-- How many jobs a round of the poll loop starts, one poll at a time and with two polls overlapping.
use skaus.Prelude.{
  ℕ, zero, suc, ◌+◌, ◌-◌, ◌*◌, ◌^◌, ◌≤◌, ◌<◌, ◌≡◌, Option, none, some, List, [], ◌∷◌, Reply,
  answered, lost, late, min, if◌then◌else◌, length, ◌==◌, arith,
}
use native.Mathlib.Nat.{pow-suc}
use skaus.Relayer.Job.{WithdrawalJob}
use skaus.Relayer.Poll.{
  Config, Processor, clear, schedule_next_poll, back_off, begin_poll, fetched, marked, go_on, poll,
}

-- `findMany` gives no more rows than it was asked to take.
abbrev pub HoldsAtMost : ℕ → Option (List WithdrawalJob) → Type 0
HoldsAtMost n none = Unit {0}
HoldsAtMost n (some js) = length js ≤ n

go_on-active :
    (c : Config) (n : ℕ) (reply : Reply) (a : Option (List WithdrawalJob)) (p : Processor)
    → HoldsAtMost n a
    → p.active_jobs + n ≤ c.max_concurrent
    → let r = go_on c reply (fetched c a p) in
      (r.0.active_jobs ≡ p.active_jobs + length r.1) × (r.0.active_jobs ≤ c.max_concurrent)
unfolding fetched marked schedule_next_poll back_off
go_on-active c n reply none p t h = ground arith
go_on-active c n reply (some []) p t h = ground arith
go_on-active c n answered (some (j ∷ js)) p t h = ground arith
go_on-active c n lost (some (j ∷ js)) p t h = ground arith
go_on-active c n late (some (j ∷ js)) p t h = ground arith

-- A poll that no other callback comes between counts the jobs that it starts, and keeps within the
-- limit of concurrent jobs, if the query gives no more rows than it was asked to take.
pub poll-active :
    (c : Config) (h : ℕ) (answer : ℕ → Option (List WithdrawalJob)) (reply : Reply) (p : Processor)
    → p.active_jobs ≤ c.max_concurrent
    → HoldsAtMost (c.max_concurrent - p.active_jobs) (answer (c.max_concurrent - p.active_jobs))
    → let r = poll c h answer reply p in
      (r.0.active_jobs ≡ p.active_jobs + length r.1) × (r.0.active_jobs ≤ c.max_concurrent)
unfolding poll begin_poll schedule_next_poll
poll-active c h answer reply p e t = ground (
  arith,
  go_on-active c (c.max_concurrent - p.active_jobs) reply
      (answer (c.max_concurrent - p.active_jobs))
      (record p { timer = none; timeouts = clear h p.timeouts }) t,
)

-- Two polls of which the second begins before the first has started its jobs.
abbrev pub overlapping :
    Config → ℕ → ℕ → List WithdrawalJob → List WithdrawalJob → Processor → Processor
overlapping c h h' jobs jobs' p =
    let p1 = (begin_poll c h p).0 in
    let p2 = (begin_poll c h' p1).0 in
    let p3 = (fetched c (some jobs) p2).0 in
    let p4 = (fetched c (some jobs') p3).0 in
    let p5 = (marked c answered jobs p4).0 in (marked c answered jobs' p5).0

-- Each of two overlapping polls is asked for the capacity that was free when it began, so if both
-- find as many jobs the limit is exceeded by the whole capacity.
overlapping-active :
    (c : Config) (h h' : ℕ) (jobs jobs' : List WithdrawalJob) (p : Processor)
    → p.active_jobs < c.max_concurrent
    → length jobs ≡ c.max_concurrent - p.active_jobs
    → length jobs' ≡ c.max_concurrent - p.active_jobs
    → ((begin_poll c h p).1 ≡ some (c.max_concurrent - p.active_jobs))
      × ((begin_poll c h' (begin_poll c h p).0).1 ≡ some (c.max_concurrent - p.active_jobs))
      × ((overlapping c h h' jobs jobs' p).active_jobs
          ≡ c.max_concurrent + (c.max_concurrent - p.active_jobs))
unfolding begin_poll fetched marked schedule_next_poll
overlapping-active c h h' [] jobs' p a e e' = absurd (omega arith)
overlapping-active c h h' (j ∷ js) [] p a e e' = absurd (omega arith)
overlapping-active c h h' (j ∷ js) (k ∷ ks) p a e e' = ground arith

-- `n` failures of the loop in a row.
abbrev pub failures : Config → ℕ → Processor → Processor
failures c zero p = p
failures c (suc n) p = (fetched c none (failures c n p)).0

failed-backoff :
    (c : Config) (p : Processor)
    → (fetched c none p).0.backoff_ms
      ≡ (if p.backoff_ms == 0 then 1_000 else min (p.backoff_ms * 2) 30_000)
unfolding fetched schedule_next_poll back_off
failed-backoff c p = ground arith

pow-pos : (n : ℕ) → 1 ≤ 2 ^ n
pow-pos zero = omega arith
pow-pos (suc n) = rw pow-suc (omega (arith, pow-pos n))

-- After n + 1 failures in a row the delay is 1000 * 2 ^ n ms, and 30000 ms at most.
failures-backoff_ms :
    (c : Config) (n : ℕ) (p : Processor)
    → p.backoff_ms ≡ 0
    → (failures c (suc n) p).backoff_ms ≡ min (1_000 * 2 ^ n) 30_000
failures-backoff_ms c zero p h = ground (arith, failed-backoff c p)
failures-backoff_ms c (suc n) p h = ground (
  arith,
  pow-suc 2 n,
  pow-pos n,
  failed-backoff c (failures c (suc n) p),
  failures-backoff_ms c n p h,
)
