-- ===== src/Wallet/Scan.antt =====
-- apps/web/src/lib/scan.ts: the deposits that a scan key can read, from the gateway's index and from
-- the chain. The decoding of base 64 and the texts of bytes are arguments.
pub mod Found
pub mod Indexed
use skaus.Prelude.{
  ℕ, ◌+◌, String, Bool, Option, none, some, List, [], ◌∷◌, ltb, length, if◌then◌else◌,
}
use skaus.Prelude.Bytes.{Bytes, slice, of_le}
use skaus.Indexer.Events.{ℤ, read_i64, DepositEvent}
use skaus.Notes.Encryption.{
  DepositNoteData, Primitives, Decrypted, too_short, bad_tag, bad_note, decrypted, decrypt_note,
}

-- The status is `available` in either scan, and is left out.
pub record ScannedDeposit : Type 0 where
  pub id : String
  pub commitment : String
  pub leaf_index : ℕ
  pub amount : ℕ
  pub token : String
  pub timestamp : ℤ
  pub tx_signature : String
  pub note_data : DepositNoteData

-- What the scan of the chain reads of an account.
pub record AccountNote : Type 0 where
  pub commitment : Bytes
  pub encrypted_note : Bytes
  pub leaf_index : ℕ
  pub timestamp : ℤ

-- Both conditions that skip an account are `<`, and no read is behind its end.
unfoldable pub parse_account : Bytes → Option AccountNote
parse_account bytes =
    let note_len = of_le (slice 72 76 bytes) in
    if ltb (length bytes) (8 + 32 + 32 + 4)
    then none
    else if ltb (length bytes) (76 + note_len + 4 + 8)
    then none
    else some (record {
      commitment = slice 40 72 bytes;
      encrypted_note = slice 76 (76 + note_len) bytes;
      leaf_index = of_le (slice (76 + note_len) (76 + note_len + 4) bytes);
      timestamp = read_i64 (slice (76 + note_len + 4) (76 + note_len + 12) bytes);
    })

-- What was read of a note: an exception of `decryptNote` skips the deposit.
unfoldable pub note_data_of : {p : Primitives} → Decrypted p → Option DepositNoteData
note_data_of too_short = none
note_data_of bad_tag = none
note_data_of bad_note = none
note_data_of (decrypted note) = some note

abbrev pub push_found : Option ScannedDeposit → List ScannedDeposit → List ScannedDeposit
push_found none found = found
push_found (some d) found = d ∷ found

module _ (p : Primitives) (scan_privkey : Bytes) where
  -- The body of the loop of `scanForDeposits`.
  unfoldable pub scan_event : (String → Bytes) → DepositEvent → Option ScannedDeposit
  scan_event from_base64 dep =
      elim (note_data_of (decrypt_note p (from_base64 dep.encrypted_note) scan_privkey)) [
        | none ↦ none
        | some note ↦ some (record {
          id = dep.commitment;
          commitment = dep.commitment;
          leaf_index = dep.leaf_index;
          amount = note.amount;
          token = "USDC";
          timestamp = dep.timestamp;
          tx_signature = dep.tx_signature;
          note_data = note;
        })
      ]

  unfoldable pub scan_for_deposits : (String → Bytes) → List DepositEvent → List ScannedDeposit
  scan_for_deposits from_base64 [] = []
  scan_for_deposits from_base64 (dep ∷ rest) =
      push_found (scan_event from_base64 dep) (scan_for_deposits from_base64 rest)

  -- The deposit of an account whose note is decrypted.
  unfoldable pub scan_note :
      (Bytes → String) → (String → Bool) → AccountNote → Option ScannedDeposit
  scan_note hex includes_so note =
      elim (note_data_of (decrypt_note p note.encrypted_note scan_privkey)) [
        | none ↦ none
        | some d ↦ some (record {
          id = hex note.commitment;
          commitment = hex note.commitment;
          leaf_index = note.leaf_index;
          amount = d.amount;
          token = if includes_so d.token_mint then "SOL" else "USDC";
          timestamp = note.timestamp;
          tx_signature = "";
          note_data = d;
        })
      ]

  -- The body of the loop of `scanDepositsOnChain`: an account that ends too soon is skipped.
  unfoldable pub scan_account : (Bytes → String) → (String → Bool) → Bytes → Option ScannedDeposit
  scan_account hex includes_so bytes = elim (parse_account bytes) [
    | none ↦ none
    | some note ↦ scan_note hex includes_so note
  ]

  unfoldable pub scan_deposits_on_chain :
      (Bytes → String) → (String → Bool) → List Bytes → List ScannedDeposit
  scan_deposits_on_chain hex includes_so [] = []
  scan_deposits_on_chain hex includes_so (a ∷ rest) =
      push_found (scan_account hex includes_so a) (scan_deposits_on_chain hex includes_so rest)
