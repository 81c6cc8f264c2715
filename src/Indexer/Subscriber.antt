-- ===== src/Indexer/Subscriber.antt =====
-- apps/gateway/src/services/indexer.ts: `HeliusGeyserSubscriber`. Opening a socket, parsing a message
-- and looking for a text in a log line are arguments.
pub mod Reconnect
use skaus.Prelude.{
  ℕ, ◌*◌, String, Bool, true, false, ◌||◌, Option, none, some, List, [], ◌∷◌, if◌then◌else◌, min,
}

pub record Subscriber : Type 0 where
  pub socket : Bool
  -- the delay of the timer that is pending
  pub reconnect_timer : Option ℕ
  pub reconnect_delay : ℕ
  pub stopped : Bool

abbrev pub new_subscriber : Subscriber
new_subscriber = record {
  socket = false;
  reconnect_timer = none;
  reconnect_delay = 1_000;
  stopped = false;
}

unfoldable pub schedule_reconnect : Subscriber → Subscriber
schedule_reconnect s =
    let delay = min (s.reconnect_delay * 2) 30_000 in
    record s { reconnect_delay = delay; reconnect_timer = some delay }

-- `connect`, by whether the constructor of the socket threw.
unfoldable pub connect : Bool → Subscriber → Subscriber
connect threw s =
    if s.stopped then s else (if threw then schedule_reconnect s else record s { socket = true })

-- The timer calls `connect`, if it is pending.
unfoldable pub fire : Bool → Subscriber → Subscriber
fire threw s = elim s.reconnect_timer [
  | none ↦ s
  | some delay ↦ connect threw (record s { reconnect_timer = none })
]

-- `onopen`; on a socket that `stop` let go it throws behind the reset.
unfoldable pub on_open : Subscriber → Subscriber
on_open s = record s { reconnect_delay = 1_000 }

unfoldable pub on_close : Subscriber → Subscriber
on_close s = if s.stopped then s else schedule_reconnect s

unfoldable pub stop : Subscriber → Subscriber
stop s = record s { stopped = true; reconnect_timer = none; socket = false }

-- What a message was parsed to.
pub record Notification : Type 0 where
  pub is_logs : Bool
  pub signature : String
  pub failed : Bool
  pub logs : List String
  pub slot : ℕ

unfoldable pub any_mentions : (String → Bool) → List String → Bool
any_mentions mentions [] = false
any_mentions mentions (l ∷ ls) = mentions l || any_mentions mentions ls

-- `onmessage`: what `onLog` is called with. `none` is a message that does not parse.
unfoldable pub on_message : (String → Bool) → Option Notification → Option (String × ℕ)
on_message mentions none = none
on_message mentions (some n) =
    if n.is_logs
    then (if n.failed
        then none
        else (if any_mentions mentions n.logs then some (n.signature, n.slot) else none))
    else none
