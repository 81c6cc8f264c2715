-- ===== src/Names/Indexer/Latest.antt =====
-- What the table of the names holds behind a webhook's messages, and behind a transaction.
use skaus.Prelude.{
  ℕ, ◌+◌, ◌≡◌, refl, ap, ◌∙◌, String, inl, inr, Option, none, some, List, [], ◌∷◌, length,
  if◌then◌else◌, str_eq, Option-cases, arith, ◌≢◌,
}
use skaus.Prelude.Bytes.{Bytes}
use skaus.Names.Record.{NameEvent}
use skaus.Names.Indexer.{
  NameTable, WebhookEvent, handled, persist_name_event, webhook_name_event, handle_webhook_event,
  handle_messages, post_name_registry,
}

module _ (m : NameTable) (base58 : Bytes → String) where
  open m use {Table, find, upsert, find-upsert}

  -- The last of the events of a name, or what was there before.
  abbrev pub put : String → Option NameEvent → Option NameEvent → Option NameEvent
  put k none before = before
  put k (some e) before = if str_eq e.name_hash k then some e else before

  abbrev pub last_of : String → List (Option WebhookEvent) → Option NameEvent → Option NameEvent
  last_of k [] before = before
  last_of k (none ∷ rest) before = last_of k rest before
  last_of k (some e ∷ rest) before = last_of k rest (put k (webhook_name_event m base58 e) before)

  abbrev pub objects : List (Option WebhookEvent) → ℕ
  objects [] = 0
  objects (none ∷ rest) = objects rest
  objects (some e ∷ rest) = 1 + objects rest

  module _ (answers : (e : NameEvent) (t : Table) → upsert e t ≢ none) where
    find-persist_name_event :
        (k : String) (e : Option NameEvent) (t : Table)
        → find k (persist_name_event m base58 e t) ≡ put k e (find k t)
    unfolding persist_name_event
    find-persist_name_event k none t = refl
    find-persist_name_event k (some e) t = elim (Option-cases (upsert e t)) [
      | inl lost ↦ absurd (answers e t lost)
      | inr (after, done) ↦ rw (persist_name_event, done) (find-upsert e k t after done)
    ]

    handle_messages-last :
        (k : String) (events : List (Option WebhookEvent)) (processed : ℕ) (t : Table)
        → let result = handle_messages m base58 events processed t in
          (result.0 ≡ processed + objects events) × (find k result.1 ≡ last_of k events (find k t))
    unfolding handle_messages handle_webhook_event
    handle_messages-last k [] processed t = (omega arith, refl)
    handle_messages-last k (none ∷ rest) processed t = handle_messages-last k rest processed t
    handle_messages-last k (some e ∷ rest) processed t =
        let event = webhook_name_event m base58 e in
        let t' = persist_name_event m base58 event t in
        let (count, row) = handle_messages-last k rest (processed + 1) t' in
        (omega (arith, count), row ∙ ap (last_of k rest) (find-persist_name_event k event t))

    -- If the table answers, a webhook's array counts its objects as processed, whether or not they are
    -- names, and leaves under every hash the last event of that name in the array, whatever the times
    -- of change of the events are, and what was there before if there is none.
    post_name_registry-last :
        (k : String) (events : List (Option WebhookEvent)) (t : Table)
        → let result = post_name_registry m base58 (some events) t in
          (result.0 ≡ handled (objects events) (length events))
          × (find k result.1 ≡ last_of k events (find k t))
    unfolding post_name_registry
    post_name_registry-last k events t =
        let (count, row) = handle_messages-last k events 0 t in
        (ap (λ n. handled n (length events)) (count ∙ omega arith), row)
