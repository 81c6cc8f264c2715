-- ===== src/Names/Indexer.antt =====
-- apps/gateway/src/services/name-indexer.ts and apps/gateway/src/routes/webhooks.ts. The table of the
-- names, the chain's answers and the search in a log's text are arguments.
pub mod Latest
use skaus.Prelude.{
  ℕ, ◌+◌, ◌≡◌, String, Bool, true, false, ◌||◌, Option, none, some, List, [], ◌∷◌, ltb,
  if◌then◌else◌, length, str_eq,
}
use skaus.Prelude.Bytes.{Bytes}
use skaus.Indexer.Events.{Listed, Fetched}
use skaus.Indexer.Subscriber.{any_mentions}
use skaus.Names.Record.{NameEvent, deserialize_name_event}

-- The table of the names. An `upsert` that fails is `none`; one that does not puts the event under its
-- hash.
pub record NameTable : Type 1 where
  pub Table : Type 0
  pub find : String → Table → Option NameEvent
  pub upsert : NameEvent → Table → Option Table
  pub find-upsert :
      (e : NameEvent) (k : String) (t t' : Table)
      → upsert e t ≡ some t'
      → find k t' ≡ (if str_eq e.name_hash k then some e else find k t)

pub record NameIndexer : Type 0 where
  pub running : Bool
  pub polling : Bool
  pub last_signature : Option String

-- `start` with the database's checkpoint, up to the first poll.
unfoldable pub start_name_indexer : Option String → NameIndexer → NameIndexer
start_name_indexer checkpoint x = if x.running then x else record {
  running = true;
  polling = true;
  last_signature = elim checkpoint [ some value ↦ some value | none ↦ x.last_signature ];
}

unfoldable pub stop_name_indexer : NameIndexer → NameIndexer
stop_name_indexer x = record x { running = false; polling = false }

-- `log.includes(text)` for the five texts.
unfoldable pub mentions_name : (String → String → Bool) → String → Bool
mentions_name contains log =
    contains log "Name registered"
    || contains log "Keys rotated"
    || contains log "Profile updated"
    || contains log "Name suspended"
    || contains log "Name unsuspended"

-- `none` for the data is a value that no buffer can be made of.
pub record WebhookEvent : Type 0 where
  pub kind : String
  pub account_data : Option Bytes
  pub signature : String

pub data WebhookReply : Type 0 where
  not_an_array : WebhookReply
  handled : ℕ → ℕ → WebhookReply

module _ (m : NameTable) (base58 : Bytes → String) where
  open m use {Table, find, upsert}

  -- `if (nameEvent) await this.persistNameEvent(nameEvent)`, whose error the callers drop.
  unfoldable pub persist_name_event : Option NameEvent → Table → Table
  persist_name_event none t = t
  persist_name_event (some e) t = elim (upsert e t) [ some t' ↦ t' | none ↦ t ]

  -- The event that a webhook's message stands for.
  unfoldable pub webhook_name_event : WebhookEvent → Option NameEvent
  webhook_name_event e =
      if str_eq e.kind "ACCOUNT_UPDATE"
      then elim e.account_data [
        | none ↦ none
        | some bytes ↦ deserialize_name_event base58 bytes e.signature
      ]
      else none

  unfoldable pub handle_webhook_event : WebhookEvent → Table → Table
  handle_webhook_event e t = persist_name_event (webhook_name_event e) t

  -- The loop of the route: `none` is a message that is no object, whose handling throws.
  unfoldable pub handle_messages : List (Option WebhookEvent) → ℕ → Table → ℕ × Table
  handle_messages [] processed t = (processed, t)
  handle_messages (none ∷ rest) processed t = handle_messages rest processed t
  handle_messages (some e ∷ rest) processed t =
      handle_messages rest (processed + 1) (handle_webhook_event e t)

  -- POST /webhooks/name-registry: `none` is a body that is no array.
  unfoldable pub post_name_registry :
      Option (List (Option WebhookEvent)) → Table → WebhookReply × Table
  post_name_registry none t = (not_an_array, t)
  post_name_registry (some events) t =
      let result = handle_messages events 0 t in (handled result.0 (length events), result.1)

  -- The body of the loop over a transaction's accounts: `none` is an account that is missing, of
  -- another program, or whose query failed.
  unfoldable pub index_name_account : String → Option Bytes → Table → Table
  index_name_account signature none t = t
  index_name_account signature (some bytes) t =
      if ltb (length bytes) 150
      then t
      else persist_name_event (deserialize_name_event base58 bytes signature) t

  unfoldable pub index_name_accounts : String → List (Option Bytes) → Table → Table
  index_name_accounts signature [] t = t
  index_name_accounts signature (a ∷ rest) t =
      index_name_accounts signature rest (index_name_account signature a t)

  module _ (contains : String → String → Bool) where
    -- `processTransaction`: `none` is a fetch that threw or found nothing.
    unfoldable pub process_name_transaction : Option Fetched → String → Table → Table
    process_name_transaction none signature t = t
    process_name_transaction (some tx) signature t = elim tx.logs [
      | none ↦ t
      | some logs ↦
          if any_mentions (mentions_name contains) logs
          then index_name_accounts signature tx.accounts t
          else t
    ]

    -- `for (const sig of sigs.reverse())`: the last of the list first.
    unfoldable pub process_names : (String → Option Fetched) → List Listed → Table → Table
    process_names fetch [] t = t
    process_names fetch (s ∷ ss) t =
        let t' = process_names fetch ss t in
        if s.failed then t' else process_name_transaction (fetch s.signature) s.signature t'

    -- `poll`: what the chain lists before the cursor, or `none` if it threw, and whether the
    -- checkpoint was written.
    unfoldable pub poll_names :
        Option (List Listed)
        → Bool
        → (String → Option Fetched)
        → Option String
        → Table
        → Option String × Table
    poll_names none saved fetch cursor t = (cursor, t)
    poll_names (some []) saved fetch cursor t = (cursor, t)
    poll_names (some (s ∷ ss)) saved fetch cursor t =
        (some s.signature, if saved then process_names fetch (s ∷ ss) t else t)
