-- ===== src/Wallet/Scan/Found.antt =====
-- The scan of the chain finds the deposits that were encrypted for the scan key; it reads an account
-- as the gateway's indexer does.
use mathlib.Core.Option
use skaus.Prelude.{
  ℕ, ◌^◌, ◌<◌, ◌≡◌, refl, ap, ◌∙◌, String, Bool, inl, inr, Option, none, some, List, [], ◌∷◌, ◌++◌,
  length, if◌then◌else◌, Bool-cases, arith, ◌+◌, ◌&&◌, true, false, ltb, leb,
}
use skaus.Prelude.Bytes.{Bytes, slice, of_le}
use skaus.Indexer.Events.{pos, Note, parse_note}
use skaus.Indexer.Events.Layout.{note_account, parse_note-note_account}
use skaus.Notes.Encryption.{
  DepositNoteData, Primitives, decrypted, decrypt_note, encrypt_note, derive_stealth_address,
}
use skaus.Notes.Encryption.RoundTrip.{IsReadBack, decrypt_note-encrypt_note}
use skaus.Wallet.Scan.{
  AccountNote, parse_account, ScannedDeposit, note_data_of, push_found, scan_note, scan_account,
  scan_deposits_on_chain,
}

push_found-append :
    (o : Option ScannedDeposit) (xs ys : List ScannedDeposit)
    → push_found o (xs ++ ys) ≡ push_found o xs ++ ys
push_found-append none xs ys = refl
push_found-append (some d) xs ys = refl

-- The part of a note that the wallet reads.
abbrev pub account_note : Note → AccountNote
account_note note = record {
  commitment = note.commitment;
  encrypted_note = note.encrypted_note;
  leaf_index = note.leaf_index;
  timestamp = note.timestamp;
}

-- The conditions of the indexer and of the wallet on the length of an account.
long_enough :
    (size n : ℕ)
    → (leb 76 size && leb (76 + n + 12) size)
      ≡ (if ltb size 76 then false else if ltb size (76 + n + 4 + 8) then false else true)
long_enough size n = ground arith

-- The wallet's reading of an account is a part of the indexer's.
pub parse_account-parse_note :
    (account : Bytes) → parse_account account ≡ Option.map account_note (parse_note account)
unfolding parse_note parse_account
parse_account-parse_note account =
    let n = of_le (slice 72 76 account) in
    let same = long_enough (length account) n in
    elim (Bool-cases (ltb (length account) 76)) [
      | inl e ↦ let off = rw e at same in rw (off, e) refl
      | inr e ↦ elim (Bool-cases (ltb (length account) (76 + n + 4 + 8))) [
        | inl f ↦ let off = rw (e, f) at same in rw (off, e, f) refl
        | inr f ↦ let on = rw (e, f) at same in rw (on, e, f) refl
      ]
    ]

module _ (p : Primitives) (scan_privkey : Bytes) where
  scan_deposits_on_chain-append :
      (hex : Bytes → String) (includes_so : String → Bool) (xs ys : List Bytes)
      → scan_deposits_on_chain p scan_privkey hex includes_so (xs ++ ys)
        ≡ scan_deposits_on_chain p scan_privkey hex includes_so xs
          ++ scan_deposits_on_chain p scan_privkey hex includes_so ys
  unfolding scan_deposits_on_chain
  scan_deposits_on_chain-append hex includes_so [] ys = refl
  scan_deposits_on_chain-append hex includes_so (x ∷ xs) ys =
      let o = scan_account p scan_privkey hex includes_so x in
      ap (push_found o) (scan_deposits_on_chain-append hex includes_so xs ys)
      ∙ push_found-append o (scan_deposits_on_chain p scan_privkey hex includes_so xs)
          (scan_deposits_on_chain p scan_privkey hex includes_so ys)

  scan_account-read :
      (hex : Bytes → String) (includes_so : String → Bool) (account : Bytes) (note : Note)
      (d : DepositNoteData)
      → parse_note account ≡ some note
      → decrypt_note p note.encrypted_note scan_privkey ≡ decrypted d
      → scan_account p scan_privkey hex includes_so account
        ≡ some (record {
          id = hex note.commitment;
          commitment = hex note.commitment;
          leaf_index = note.leaf_index;
          amount = d.amount;
          token = if includes_so d.token_mint then "SOL" else "USDC";
          timestamp = note.timestamp;
          tx_signature = "";
          note_data = d;
        })
  unfolding note_data_of scan_account scan_note
  scan_account-read hex includes_so account note d parsed read =
      rw (scan_account, scan_note, parse_account-parse_note account, parsed, read) refl

module _ (p : Primitives) where
  open p use {sha256, public_key, shared_secret}

  module _ (agree : (a b : Bytes) → shared_secret a (public_key b) ≡ shared_secret b (public_key a))
      (keys : (k : Bytes) → length (public_key k) ≡ 32)
      (hash : (bs : Bytes) → length (sha256 bs) ≡ 32) where
    -- Under the conditions on which a note that was encrypted for a scan key is decrypted by it: an
    -- account with such a note, of the sizes of the program's fields, is found by the scan of the chain
    -- wherever it stands among the accounts, with its leaf index and the note as it was written.
    pub scan_deposits_on_chain-found :
        (hex : Bytes → String) (includes_so : String → Bool) (before after : List Bytes)
        (disc pool commitment tail : Bytes) (leaf timestamp : ℕ) (r s nonce : Bytes) (index : ℕ)
        (note : DepositNoteData)
        → let sender = derive_stealth_address p r (public_key s) index in
          let sealed = encrypt_note p nonce note sender.0 in
          let scan = scan_deposits_on_chain p s hex includes_so in
          IsReadBack p note
          → length nonce ≡ 12
          → note.ephemeral_pubkey ≡ public_key r
          → length disc ≡ 8
          → length pool ≡ 32
          → length commitment ≡ 32
          → length sealed < 2 ^ 32
          → leaf < 2 ^ 32
          → timestamp < 2 ^ 63
          → scan (before ++ note_account disc pool commitment sealed leaf timestamp tail ∷ after)
            ≡ scan before
              ++ record {
                id = hex commitment;
                commitment = hex commitment;
                leaf_index = leaf;
                amount = note.amount;
                token = if includes_so note.token_mint then "SOL" else "USDC";
                timestamp = pos timestamp;
                tx_signature = "";
                note_data = note;
              }
                ∷ scan after
    unfolding scan_deposits_on_chain
    scan_deposits_on_chain-found hex includes_so before after disc pool commitment tail leaf
          timestamp r s nonce index note texts b e hd hp hc hn hl ht =
        let sender = derive_stealth_address p r (public_key s) index in
        let sealed = encrypt_note p nonce note sender.0 in
        let account = note_account disc pool commitment sealed leaf timestamp tail in
        let read = decrypt_note-encrypt_note p agree keys hash r s nonce index note texts b e in
        let parsed =
          parse_note-note_account disc pool commitment sealed tail leaf timestamp hd hp hc hn hl
            ht in
        scan_deposits_on_chain-append p s hex includes_so before (account ∷ after)
        ∙ ap
            (λ o.
              scan_deposits_on_chain p s hex includes_so before
              ++ push_found o (scan_deposits_on_chain p s hex includes_so after))
            (scan_account-read p s hex includes_so account _ note parsed read.0)
