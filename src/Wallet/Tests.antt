-- ===== src/Wallet/Tests.antt =====
-- A run of the two scans at concrete accounts.
use Prim.Native.Char.{code}
use skaus.Prelude.{
  ℕ, zero, suc, String, Bool, false, Option, none, some, List, str_eq, [], ◌∷◌, ◌++◌, ◌==◌,
  if◌then◌else◌, replicate,
}
use skaus.Prelude.Bytes.{Bytes}
use skaus.Prelude.Database.{history}
use skaus.Indexer.Events.{Texts, pos, Deposits, Listed, Fetched}
use skaus.Indexer.Events.Layout.{note_account}
use skaus.Notes.Encryption.{Primitives}
use skaus.Wallet.Scan.{ScannedDeposit}

abbrev primitives : Primitives
primitives = record {
  sha256 = λ bs. replicate 32 7;
  public_key = λ k. replicate 32 9;
  shared_secret = λ a b. b;
  to_json = λ j. 1 ∷ [];
  from_json = λ bs. some (record {
    secret = "5";
    nullifier = "5";
    amount = "5";
    token_mint = "mint";
    ephemeral_pubkey = [];
  });
  decimal = λ n. "5";
  big_int = λ s. some 5;
  domain = 3 ∷ [];
}

-- A note of 61 bytes, and its tag.
abbrev sealed : Bytes
sealed = replicate 45 1 ++ replicate 16 7

abbrev key : Bytes
key = 2 ∷ []

abbrev not_sol : String → Bool
not_sol text = false

-- A text of the bytes: each in ones, with a dot behind it.
unfoldable ones : ℕ → String → String
ones zero rest = String.◌∷◌ "." rest
ones (suc n) rest = String.◌∷◌ "1" (ones n rest)

unfoldable unary : Bytes → String
unary [] = String.[]
unary (b ∷ bs) = ones b (unary bs)

unfoldable read_unary : ℕ → String → Bytes
read_unary count String.[] = []
read_unary count (String.◌∷◌ c s) =
    let behind = read_unary 0 s in
    let within = read_unary (suc count) s in if code c == b'.' then count ∷ behind else within

abbrev texts : Texts
texts = record { base58 = λ b. "pool"; hex = λ b. "commitment"; base64 = unary }

abbrev account : Bytes
account = note_account (replicate 8 1) (replicate 32 2) (replicate 32 3) sealed 6 1_700_000_000 []

abbrev db : Deposits
db = history (λ e. e.commitment) (λ e. e.tx_signature)

abbrev is_deposit_log : String → Bool
is_deposit_log l = str_eq l "Deposit #6"

-- What the scan of the chain finds.
abbrev found : ScannedDeposit
found = record {
  id = "commitment";
  commitment = "commitment";
  leaf_index = 6;
  amount = 5;
  token = "USDC";
  timestamp = pos 1_700_000_000;
  tx_signature = "";
  note_data = record {
    secret = 5;
    nullifier = 5;
    amount = 5;
    token_mint = "mint";
    ephemeral_pubkey = [];
  };
}

-- The deposit's account is the second of the transaction, and another transaction comes later.
abbrev nothing : String → Option Fetched
nothing k = none

abbrev later : List Listed
later = record { signature = "later"; failed = false; slot = 11 } ∷ []
