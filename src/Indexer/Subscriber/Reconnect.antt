-- ===== src/Indexer/Subscriber/Reconnect.antt =====
-- The delays between connections, and the end of them after `stop`.
use skaus.Prelude.{
  ℕ, zero, suc, ◌+◌, ◌*◌, ◌^◌, ◌≤◌, ◌≡◌, refl, Bool, true, false, none, some, min, inl, inr, arith,
  Option-cases, List, [], ◌∷◌,
}
use native.Mathlib.Nat.{pow-suc}
use skaus.Indexer.Subscriber.{
  Subscriber, new_subscriber, schedule_reconnect, connect, fire, on_open, on_close, stop,
}

-- What happens to a subscriber: its owner connects it, its timer fires, its socket opens or closes.
pub data Event : Type 0 where
  connects fires : Bool → Event
  opens closes : Event

abbrev pub react : Event → Subscriber → Subscriber
react (connects threw) s = connect threw s
react (fires threw) s = fire threw s
react opens s = on_open s
react closes s = on_close s

abbrev pub react_all : List Event → Subscriber → Subscriber
react_all [] s = s
react_all (e ∷ es) s = react_all es (react e s)

-- No timer is pending, no socket is held, and neither comes back.
abbrev pub IsSilent : Subscriber → Type 0
IsSilent s = (s.stopped ≡ true) × (s.socket ≡ false) × (s.reconnect_timer ≡ none)

react-IsSilent : (e : Event) (s : Subscriber) → IsSilent s → IsSilent (react e s)
unfolding connect fire on_open on_close
react-IsSilent (connects threw) s (a, b, c) = rw (a, connect) (refl, b, c)
react-IsSilent (fires threw) s (a, b, c) = rw (c, fire) (a, b, c)
react-IsSilent opens s (a, b, c) = (a, b, c)
react-IsSilent closes s (a, b, c) = rw (a, on_close) (refl, b, c)

react_all-IsSilent : (es : List Event) (s : Subscriber) → IsSilent s → IsSilent (react_all es s)
react_all-IsSilent [] s h = h
react_all-IsSilent (e ∷ es) s h = react_all-IsSilent es (react e s) (react-IsSilent e s h)

-- After `stop`, whatever timer fires and whatever an old socket reports, no connection is held and
-- none is planned.
react_all-stop :
    (es : List Event) (s : Subscriber)
    → let s' = react_all es (stop s) in (s'.socket ≡ false) × (s'.reconnect_timer ≡ none)
unfolding stop
react_all-stop es s =
    let (_, socket, timer) = react_all-IsSilent es (stop s) (refl, refl, refl) in (socket, timer)

abbrev pub IsBounded : Subscriber → Type 0
IsBounded s = (1_000 ≤ s.reconnect_delay) × (s.reconnect_delay ≤ 30_000)

connect-IsBounded : (threw : Bool) (s : Subscriber) → IsBounded s → IsBounded (connect threw s)
unfolding connect schedule_reconnect
connect-IsBounded threw s h = ground arith

react-IsBounded : (e : Event) (s : Subscriber) → IsBounded s → IsBounded (react e s)
unfolding fire on_open on_close schedule_reconnect
react-IsBounded (connects threw) s h = connect-IsBounded threw s h
react-IsBounded (fires threw) s h = elim (Option-cases s.reconnect_timer) [
  | inl e ↦ rw (e, fire) h
  | inr (d, e) ↦ rw (e, fire) (connect-IsBounded threw (record s { reconnect_timer = none }) h)
]
react-IsBounded opens s h = (omega arith, omega arith)
react-IsBounded closes s h = ground arith

react_all-IsBounded : (es : List Event) (s : Subscriber) → IsBounded s → IsBounded (react_all es s)
react_all-IsBounded [] s h = h
react_all-IsBounded (e ∷ es) s h = react_all-IsBounded es (react e s) (react-IsBounded e s h)

-- `n` attempts to connect that throw, the first by the owner, the others by the timer.
abbrev pub failures : ℕ → List Event
failures zero = []
failures (suc n) = fires true ∷ failures n

doubled : ℕ → ℕ → ℕ
doubled zero d = d
doubled (suc n) d = doubled n (min (d * 2) 30_000)

fire-again :
    (s : Subscriber) (d : ℕ)
    → s.stopped ≡ false
    → s.reconnect_timer ≡ some d
    → let s' = fire true s in
      (s'.stopped ≡ false)
      × (s'.reconnect_timer ≡ some s'.reconnect_delay)
      × (s'.reconnect_delay ≡ min (s.reconnect_delay * 2) 30_000)
unfolding fire connect schedule_reconnect
fire-again s d a e = rw (e, fire, a) (refl, refl, refl)

failures-delay :
    (n k : ℕ) (s : Subscriber) (d : ℕ)
    → s.stopped ≡ false
    → s.reconnect_timer ≡ some d
    → s.reconnect_delay ≡ min (1_000 * 2 ^ k) 30_000
    → (react_all (failures n) s).reconnect_delay ≡ min (1_000 * 2 ^ (n + k)) 30_000
failures-delay zero k s d a e h = let same : 0 + k ≡ k = omega arith in rw same h
failures-delay (suc n) k s d a e h =
    let (a', e', h') = fire-again s d a e in
    let same : suc n + k ≡ n + suc k = omega arith in
    rw same (failures-delay n (suc k) (fire true s) _ a' e' (omega (arith, h', h, pow-suc 2 k)))

-- From a fresh subscriber on, the delay stays between 1 and 30 seconds. If every connection fails, the
-- timer behind the failure with number `n + 1` waits 2 ^ (n + 1) seconds, at most 30: the first one
-- already waits two.
reconnect_delay_bounds :
    (es : List Event) (n : ℕ)
    → IsBounded (react_all es new_subscriber)
      × ((react_all (connects true ∷ failures n) new_subscriber).reconnect_delay
          ≡ min (1_000 * 2 ^ (n + 1)) 30_000)
unfolding connect schedule_reconnect
reconnect_delay_bounds es n = (
  react_all-IsBounded es new_subscriber (omega arith, omega arith),
  failures-delay n 1 (connect true new_subscriber) 2_000 refl refl refl,
)
