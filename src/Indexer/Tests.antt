-- ===== src/Indexer/Tests.antt =====
-- Runs of the indexer of deposits at concrete inputs.
use skaus.Prelude.{String, Bool, false, Option, none, some, List, [], ◌∷◌, replicate, str_eq}
use skaus.Prelude.Database.{history}
use skaus.Indexer.Events.{pos, Note, Deposits, DepositEvent, Texts, Listed, Fetched, event_of}

abbrev note : Note
note = record {
  pool = replicate 32 2;
  commitment = replicate 32 3;
  encrypted_note = 4 ∷ 5 ∷ [];
  leaf_index = 6;
  timestamp = pos 1_700_000_000;
}

abbrev db : Deposits
db = history (λ e. e.commitment) (λ e. e.tx_signature)

abbrev texts : Texts
texts = record { base58 = λ b. "pool"; hex = λ b. "commitment"; base64 = λ b. "note" }

abbrev is_deposit_log : String → Bool
is_deposit_log l = str_eq l "Deposit #6"

abbrev event : DepositEvent
event = event_of texts "sig" 9 note

abbrev listed : Listed
listed = record { signature = "sig"; failed = false; slot = 9 }

abbrev nothing : String → Option Fetched
nothing k = none

-- A second transaction, which is newer.
abbrev newer : Listed
newer = record { signature = "later"; failed = false; slot = 11 }

abbrev chain : Option String → List Listed
chain none = newer ∷ listed ∷ []
chain (some cursor) = newer ∷ []
