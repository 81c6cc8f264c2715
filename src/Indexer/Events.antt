-- ===== src/Indexer/Events.antt =====
-- apps/gateway/src/services/indexer.ts: the decoding of a note's account, and `DepositIndexer`. The
-- chain's answers and the texts of bytes are arguments.
pub mod Layout
pub mod Cursor
use skaus.Prelude.{
  ℕ, ◌+◌, ◌-◌, ◌^◌, ◌≤◌, String, Bool, true, false, ◌&&◌, not, Option, none, some, List, [], ◌∷◌,
  ◌++◌, ltb, leb, if◌then◌else◌, length, Model,
}
use skaus.Prelude.Bytes.{Bytes, slice, of_le}
use skaus.Indexer.Subscriber.{Subscriber, any_mentions, new_subscriber, connect, stop}

-- A number read as signed: `negsuc n` is -1 - n.
pub data ℤ : Type 0 where
  pos negsuc : ℕ → ℤ

-- The deposit note read from an account.
pub record Note : Type 0 where
  pub pool : Bytes
  pub commitment : Bytes
  pub encrypted_note : Bytes
  pub leaf_index : ℕ
  pub timestamp : ℤ

unfoldable pub read_i64 : Bytes → ℤ
read_i64 bytes = let v = of_le bytes in if ltb v (2 ^ 63) then pos v else negsuc (2 ^ 64 - 1 - v)

-- The reads throw behind the end of the data, which skips the account: `none`.
unfoldable pub parse_note : Bytes → Option Note
parse_note bytes =
    let note_end = 76 + of_le (slice 72 76 bytes) in
    if leb 76 (length bytes) && leb (note_end + 12) (length bytes)
    then some (record {
      pool = slice 8 40 bytes;
      commitment = slice 40 72 bytes;
      encrypted_note = slice 76 note_end bytes;
      leaf_index = of_le (slice note_end (note_end + 4) bytes);
      timestamp = read_i64 (slice (note_end + 4) (note_end + 12) bytes);
    })
    else none

pub record DepositEvent : Type 0 where
  pub commitment : String
  pub tx_signature : String
  pub pool : String
  pub leaf_index : ℕ
  pub amount : String
  pub encrypted_note : String
  pub timestamp : ℤ
  pub slot : ℕ

-- The commitment and the signature are unique.
abbrev pub Deposits : Type 1
Deposits = Model DepositEvent (λ e. e.commitment) (λ e. e.tx_signature)

-- `toBase58`, `toString('hex')` and `toString('base64')`.
pub record Texts : Type 0 where
  pub base58 : Bytes → String
  pub hex : Bytes → String
  pub base64 : Bytes → String

unfoldable pub event_of : Texts → String → ℕ → Note → DepositEvent
event_of texts signature slot note = record {
  commitment = texts.hex note.commitment;
  tx_signature = signature;
  pool = texts.base58 note.pool;
  leaf_index = note.leaf_index;
  amount = "0";
  encrypted_note = texts.base64 note.encrypted_note;
  timestamp = note.timestamp;
  slot = slot;
}

-- The signatures that the chain lists, the newest first.
pub record Listed : Type 0 where
  pub signature : String
  pub failed : Bool
  pub slot : ℕ

-- A transaction's logs, if it has any, and the data of its accounts: `none` is an account that is
-- missing, of another program, or whose query failed.
pub record Fetched : Type 0 where
  pub logs : Option (List String)
  pub accounts : List (Option Bytes)

pub record DepositIndexer : Type 0 where
  pub running : Bool
  pub polling : Bool
  pub subscriber : Option Subscriber
  pub last_signature : Option String

-- `start`, up to the first poll: whether there is a Geyser URL, whether its socket threw, and the
-- checkpoint of the database.
unfoldable pub start_indexer : Bool → Bool → Option String → DepositIndexer → DepositIndexer
start_indexer has_url threw checkpoint d = if d.running then d else record {
  running = true;
  polling = true;
  subscriber = if has_url then some (connect threw new_subscriber) else d.subscriber;
  last_signature = elim checkpoint [ some value ↦ some value | none ↦ d.last_signature ];
}

unfoldable pub stop_indexer : DepositIndexer → DepositIndexer
stop_indexer d = record d { running = false; polling = false; subscriber = none }

module _ (m : Deposits) (texts : Texts) (mentions : String → Bool) where
  open m use {Table, find, find_key, create}

  -- `upsert` with an empty update. A taken signature breaks the constraint, which skips the account.
  unfoldable pub upsert : DepositEvent → Table → Table
  upsert e t = elim (find e.commitment t) [
    | some row ↦ t
    | none ↦ elim (find_key e.tx_signature t) [ some row ↦ t | none ↦ create e t ]
  ]

  -- The body of the loop over the accounts.
  unfoldable pub index_account : String → ℕ → Option Bytes → Table → Table
  index_account signature slot none t = t
  index_account signature slot (some bytes) t = elim (parse_note bytes) [
    | none ↦ t
    | some note ↦ upsert (event_of texts signature slot note) t
  ]

  unfoldable pub index_accounts : String → ℕ → List (Option Bytes) → Table → Table
  index_accounts signature slot [] t = t
  index_accounts signature slot (a ∷ rest) t =
      index_accounts signature slot rest (index_account signature slot a t)

  -- `processTransaction`: `none` is a fetch that threw or found nothing.
  unfoldable pub process_transaction : Option Fetched → String → ℕ → Table → Table
  process_transaction none signature slot t = t
  process_transaction (some tx) signature slot t = elim tx.logs [
    | none ↦ t
    | some logs ↦
        if any_mentions mentions logs then index_accounts signature slot tx.accounts t else t
  ]

  -- `for (const sig of sigs.reverse())`: the last of the list first.
  unfoldable pub process_reversed : (String → Option Fetched) → List Listed → Table → Table
  process_reversed fetch [] t = t
  process_reversed fetch (s ∷ ss) t =
      let t' = process_reversed fetch ss t in
      if s.failed then t' else process_transaction (fetch s.signature) s.signature s.slot t'

  -- `poll`: what the chain lists before the cursor, or `none` if it threw, whether the checkpoint was
  -- written, and the fetches. It gives the new cursor and the table.
  unfoldable pub poll :
      Option (List Listed)
      → Bool
      → (String → Option Fetched)
      → Option String
      → Table
      → Option String × Table
  poll none saved fetch cursor t = (cursor, t)
  poll (some []) saved fetch cursor t = (cursor, t)
  poll (some (s ∷ ss)) saved fetch cursor t =
      (some s.signature, if saved then process_reversed fetch (s ∷ ss) t else t)
