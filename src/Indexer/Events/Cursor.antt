-- ===== src/Indexer/Events/Cursor.antt =====
-- What the table of deposits keeps, and what the cursor moves past.
use text.Mathlib.TextPositions.{eq_refl}
use skaus.Prelude.{
  ℕ, zero, suc, replicate, ◌++◌, ◌≡◌, refl, ap, ◌∙◌, String, Bool, true, Option, none, some, List,
  [], ◌∷◌, inl, inr, Option-cases, Bool-cases, str_eq, eq_iff,
}
use skaus.Prelude.Bytes.{Bytes}
use skaus.Indexer.Subscriber.{any_mentions}
use skaus.Indexer.Events.{
  DepositEvent, Deposits, Texts, Note, Listed, Fetched, event_of, parse_note, upsert, index_account,
  index_accounts, process_transaction, process_reversed,
}

module _ (m : Deposits) (texts : Texts) (mentions : String → Bool) where
  open m use {Table, find, find_key, create, find-create, find_key-create}

  -- Every deposit of one table is in the other, unchanged.
  abbrev pub Keeps : Table → Table → Type 0
  Keeps t t' = (k : String) (e : DepositEvent) → find k t ≡ some e → find k t' ≡ some e

  upsert-Keeps : (e : DepositEvent) (t : Table) → Keeps t (upsert m texts mentions e t)
  unfolding upsert
  upsert-Keeps e t k r h = elim (Option-cases (find e.commitment t)) [
    | inr (row, f) ↦ rw (f, upsert) h
    | inl f ↦ elim (Option-cases (find_key e.tx_signature t)) [
      | inr (row, g) ↦ rw (f, upsert, g) h
      | inl g ↦ elim (Bool-cases (str_eq e.commitment k)) [
        | inl same ↦ let k_same = (eq_iff e.commitment k).0 same in cc
        | inr other ↦ rw (f, upsert, g) (find-create e k t f ∙ rw other h)
      ]
    ]
  ]

  index_account-Keeps :
      (signature : String) (slot : ℕ) (a : Option Bytes) (t : Table)
      → Keeps t (index_account m texts mentions signature slot a t)
  unfolding index_account
  index_account-Keeps signature slot none t k r h = h
  index_account-Keeps signature slot (some bytes) t k r h = elim (Option-cases (parse_note bytes)) [
    | inl f ↦ rw (f, index_account) h
    | inr (note, f) ↦
        rw (f, index_account) (upsert-Keeps (event_of texts signature slot note) t k r h)
  ]

  index_accounts-Keeps :
      (signature : String) (slot : ℕ) (accounts : List (Option Bytes)) (t : Table)
      → Keeps t (index_accounts m texts mentions signature slot accounts t)
  unfolding index_accounts
  index_accounts-Keeps signature slot [] t k r h = h
  index_accounts-Keeps signature slot (a ∷ rest) t k r h =
      index_accounts-Keeps signature slot rest _ k r (index_account-Keeps signature slot a t k r h)

  -- A transaction leaves every deposit of the table in it unchanged, however often it is processed.
  pub process_transaction-Keeps :
      (tx : Option Fetched) (signature : String) (slot : ℕ) (t : Table)
      → Keeps t (process_transaction m texts mentions tx signature slot t)
  unfolding process_transaction
  process_transaction-Keeps none signature slot t k r h = h
  process_transaction-Keeps (some tx) signature slot t k r h = elim (Option-cases tx.logs) [
    | inl f ↦ rw (f, process_transaction) h
    | inr (logs, f) ↦ elim (Bool-cases (any_mentions mentions logs)) [
      | inl b ↦
          rw (f, process_transaction, b) (index_accounts-Keeps signature slot tx.accounts t k r h)
      | inr b ↦ rw (f, process_transaction, b) h
    ]
  ]

  pub process_reversed-Keeps :
      (fetch : String → Option Fetched) (ss : List Listed) (t : Table)
      → Keeps t (process_reversed m texts mentions fetch ss t)
  unfolding process_reversed
  process_reversed-Keeps fetch [] t k r h = h
  process_reversed-Keeps fetch (s ∷ ss) t k r h =
      let rest = process_reversed-Keeps fetch ss t k r h in
      elim (Bool-cases s.failed) [
        | inl b ↦ rw b rest
        | inr b ↦ rw b (
            process_transaction-Keeps (fetch s.signature) s.signature s.slot
              (process_reversed m texts mentions fetch ss t) k r rest)
      ]

  upsert-taken :
      (e row : DepositEvent) (t : Table)
      → find_key e.tx_signature t ≡ some row
      → upsert m texts mentions e t ≡ t
  unfolding upsert
  upsert-taken e row t h = elim (Option-cases (find e.commitment t)) [
    | inl f ↦ rw (f, upsert, h) refl
    | inr (r, f) ↦ rw (f, upsert) refl
  ]

  index_account-taken :
      (signature : String) (slot : ℕ) (a : Option Bytes) (row : DepositEvent) (t : Table)
      → find_key signature t ≡ some row
      → index_account m texts mentions signature slot a t ≡ t
  unfolding index_account event_of
  index_account-taken signature slot none row t h = refl
  index_account-taken signature slot (some bytes) row t h = elim (Option-cases (parse_note bytes)) [
    | inl f ↦ rw (f, index_account) refl
    | inr (note, f) ↦
        rw (f, index_account) (upsert-taken (event_of texts signature slot note) row t h)
  ]

  index_accounts-taken :
      (signature : String) (slot : ℕ) (accounts : List (Option Bytes)) (row : DepositEvent)
      (t : Table)
      → find_key signature t ≡ some row
      → index_accounts m texts mentions signature slot accounts t ≡ t
  unfolding index_accounts
  index_accounts-taken signature slot [] row t h = refl
  index_accounts-taken signature slot (a ∷ rest) row t h =
      ap (index_accounts m texts mentions signature slot rest)
        (index_account-taken signature slot a row t h)
      ∙ index_accounts-taken signature slot rest row t h

  upsert-new :
      (e : DepositEvent) (t : Table)
      → find e.commitment t ≡ none
      → find_key e.tx_signature t ≡ none
      → upsert m texts mentions e t ≡ create e t
  unfolding upsert
  upsert-new e t f g = rw (f, upsert, g) refl

  index_account-new :
      (signature : String) (slot : ℕ) (bytes : Bytes) (note : Note) (t : Table)
      → parse_note bytes ≡ some note
      → let e = event_of texts signature slot note in
        find e.commitment t ≡ none
        → find_key signature t ≡ none
        → index_account m texts mentions signature slot (some bytes) t ≡ create e t
  unfolding index_account event_of
  index_account-new signature slot bytes note t h f g =
      rw (h, index_account) (upsert-new (event_of texts signature slot note) t f g)

  index_accounts-skip :
      (signature : String) (slot n : ℕ) (accounts : List (Option Bytes)) (t : Table)
      → index_accounts m texts mentions signature slot (replicate n none ++ accounts) t
        ≡ index_accounts m texts mentions signature slot accounts t
  unfolding index_accounts index_account
  index_accounts-skip signature slot zero accounts t = refl
  index_accounts-skip signature slot (suc n) accounts t =
      index_accounts-skip signature slot n accounts t

  -- A transaction that logs a deposit, with a note behind accounts that are no notes, neither its
  -- commitment nor its signature in the table yet, adds the event of that note. Whatever accounts come
  -- behind it, a second deposit of the transaction included, it adds nothing else.
  pub process_transaction-first :
      (signature : String) (slot n : ℕ) (logs : List String) (bytes : Bytes) (note : Note)
      (rest : List (Option Bytes)) (t : Table)
      → any_mentions mentions logs ≡ true
      → parse_note bytes ≡ some note
      → let e = event_of texts signature slot note in
        find e.commitment t ≡ none
        → find_key signature t ≡ none
        → process_transaction m texts mentions
            (some (record { logs = some logs; accounts = replicate n none ++ some bytes ∷ rest }))
            signature
            slot
            t
          ≡ create e t
  unfolding process_transaction index_accounts event_of
  process_transaction-first signature slot n logs bytes note rest t logged parsed absent free =
      let e = event_of texts signature slot note in
      let stored : find_key signature (create e t) ≡ some e =
        find_key-create e signature t free ∙ rw (eq_refl signature) refl in
      rw logged (
        index_accounts-skip signature slot n (some bytes ∷ rest) t
        ∙ ap (index_accounts m texts mentions signature slot rest)
            (index_account-new signature slot bytes note t parsed absent free)
        ∙ index_accounts-taken signature slot rest e (create e t) stored)
