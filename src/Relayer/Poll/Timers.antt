-- ===== src/Relayer/Poll/Timers.antt =====
-- How many polls are pending: the early returns of `_poll` schedule the next one twice.
use skaus.Prelude.{
  ℕ, ◌+◌, ◌-◌, ◌≤◌, ◌<◌, ◌≡◌, refl, Bool, true, false, Option, none, some, List, [], ◌∷◌, ◌⊎◌, inl,
  inr, Reply, ltb, if◌then◌else◌, length, Option-cases, arith,
}
use skaus.Relayer.Job.{WithdrawalJob}
use skaus.Relayer.Poll.{
  Config, Timeout, Processor, clear, schedule_next_poll, back_off, begin_poll, fetched, marked,
  go_on, poll, stop,
}

-- Handles are given out in order and once: the newest is at the head.
abbrev pub Below : ℕ → List Timeout → Type 0
Below n [] = Unit {0}
Below n (x ∷ xs) = (x.handle < n) × Below x.handle xs

abbrev pub Pending : ℕ → List Timeout → Type 0
Pending h [] = ⊥
Pending h (x ∷ xs) = (x.handle ≡ h) ⊎ Pending h xs

Below-mono : {m n : ℕ} (xs : List Timeout) → m ≤ n → Below m xs → Below n xs
Below-mono [] h b = tt
Below-mono (x ∷ xs) h b = (omega arith, b.1)

clear_above : (h n : ℕ) (xs : List Timeout) → Below n xs → n ≤ h → clear h xs ≡ xs
unfolding clear
clear_above h n [] b e = refl
clear_above h n (x ∷ xs) b e = ground (arith, clear_above h x.handle xs b.1)

-- A pending timeout that fires or is cleared is one less.
pub length-clear :
    (h n : ℕ) (xs : List Timeout) → Below n xs → Pending h xs → length (clear h xs) + 1 ≡ length xs
unfolding clear
length-clear h n [] b e = absurd e
length-clear h n (x ∷ xs) b (inl e) = ground (arith, clear_above h x.handle xs b.1)
length-clear h n (x ∷ xs) b (inr e) =
    ground (arith, clear_above h x.handle xs b.1, length-clear h x.handle xs b.1 e)

length-clear-ge : (h n : ℕ) (xs : List Timeout) → Below n xs → length xs ≤ length (clear h xs) + 1
unfolding clear
length-clear-ge h n [] b = omega arith
length-clear-ge h n (x ∷ xs) b =
    ground (arith, clear_above h x.handle xs b.1, length-clear-ge h x.handle xs b.1)

-- Whether the poll returns early: no capacity is left, or no job is found.
abbrev pub is_empty : Option (List WithdrawalJob) → Bool
is_empty (some []) = true
is_empty _ = false

abbrev pub is_idle : Config → (ℕ → Option (List WithdrawalJob)) → Processor → Bool
is_idle c answer p =
    if ltb p.active_jobs c.max_concurrent
    then is_empty (answer (c.max_concurrent - p.active_jobs))
    else true

length-schedule :
    (c : Config) (p : Processor)
    → p.running ≡ true
    → length (schedule_next_poll c p).timeouts ≡ length p.timeouts + 1
unfolding schedule_next_poll
length-schedule c p r = ground arith

module _ (c : Config) (h : ℕ) (answer : ℕ → Option (List WithdrawalJob)) (reply : Reply) where
  after_fetch :
      (a : Option (List WithdrawalJob)) (p : Processor)
      → p.running ≡ true
      → length (go_on c reply (fetched c a p)).0.timeouts
        ≡ length p.timeouts + (if is_empty a then 2 else 1)
  unfolding fetched schedule_next_poll marked back_off
  after_fetch none p r = ground arith
  after_fetch (some []) p r = ground arith
  after_fetch (some (j ∷ js)) p r = ground arith

  -- A poll of a running processor takes one pending poll and schedules one, but two if it has no
  -- capacity left or finds no job: each such poll leaves one pending poll more.
  pub poll-timeouts :
      (p : Processor)
      → p.running ≡ true
      → Below p.next_handle p.timeouts
      → Pending h p.timeouts
      → length (poll c h answer reply p).0.timeouts
        ≡ length p.timeouts + (if is_idle c answer p then 1 else 0)
  unfolding poll begin_poll schedule_next_poll
  poll-timeouts p r b e = ground (
    arith,
    length-clear h p.next_handle p.timeouts b e,
    after_fetch (answer (c.max_concurrent - p.active_jobs))
        (record p { timer = none; timeouts = clear h p.timeouts }),
  )

-- Some poll stays pending, when more than one was.
pub Pending-some : (xs : List Timeout) → 0 < length xs → (h : ℕ) × Pending h xs
Pending-some [] e = absurd (omega arith)
Pending-some (x ∷ xs) e = (x.handle, inl refl)

length-stop :
    (p : Processor)
    → Below p.next_handle p.timeouts
    → length p.timeouts ≤ length (stop p).timeouts + 1
unfolding stop
length-stop p b = elim (Option-cases p.timer) [
  | inl e ↦ rw (e, stop) (omega arith)
  | inr (h, e) ↦ rw (e, stop) (length-clear-ge h p.next_handle p.timeouts b)
]

stop-running : (p : Processor) → (stop p).running ≡ false
unfolding stop
stop-running p = ground arith

stop-capacity :
    (c : Config) (h : ℕ) (p : Processor)
    → p.active_jobs < c.max_concurrent
    → (begin_poll c h (stop p)).1 ≡ some (c.max_concurrent - p.active_jobs)
unfolding stop begin_poll
stop-capacity c h p a = ground arith

-- With two polls pending `stop` clears one of them at most. The other one fires on the stopped
-- processor, and if capacity is left it fetches jobs.
stop-begin_poll :
    (c : Config) (p : Processor)
    → Below p.next_handle p.timeouts
    → 2 ≤ length p.timeouts
    → p.active_jobs < c.max_concurrent
    → (h : ℕ) × Pending h (stop p).timeouts
      × ((stop p).running ≡ false)
      × ((begin_poll c h (stop p)).1 ≡ some (c.max_concurrent - p.active_jobs))
stop-begin_poll c p b n a =
    let (h, e) = Pending-some (stop p).timeouts (omega (arith, length-stop p b)) in
    (h, e, stop-running p, stop-capacity c h p a)
