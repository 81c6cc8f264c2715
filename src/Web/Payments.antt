-- ===== src/Web/Payments.antt =====
-- The pages of apps/web that pay a name: [username]/page.tsx, [username]/[slug]/page.tsx,
-- [username]/request/[requestId]/page.tsx and pay/[username]/page.tsx, with apps/web/src/lib/keys.ts.
-- Texts of progress and of errors are left out. The lookups, the wallet, the chain and the decoding of
-- base 58 are arguments, and so is the amount as a floating-point number.
pub mod Unclaimed
pub mod Found
use Prim.Native.Char.{code}
use skaus.Prelude.{
  ℕ, String, Bool, true, false, ◌&&◌, ◌||◌, Option, none, some, List, [], ◌∷◌, ◌==◌, if◌then◌else◌,
  str_eq, length,
}
use skaus.Prelude.Bytes.{Bytes}
use skaus.Profiles.Gated.{strip_prefix, hex_value, read_hex_text}
use skaus.Notes.Encryption.{Primitives}
use skaus.Deposit.Tiers.{Token, Split, exact, inexact, tiers_of, split_into_tiers}
use skaus.Deposit.Execution.{
  Draw, Payer, Made, DepositReply, not_planned, executed, execute_deposit,
}

-- The keys of a name as texts: `recipientMetaAddress`, `stealthMetaAddress`.
pub record MetaAddress : Type 0 where
  pub scan_pubkey : String
  pub spend_pubkey : String
  pub version : ℕ

pub record StealthMetaAddress : Type 0 where
  pub scan_pubkey : Bytes
  pub spend_pubkey : Bytes
  pub version : ℕ

-- `value.startsWith(prefix)`
abbrev pub starts_with : String → String → Bool
starts_with prefix text = elim (strip_prefix prefix text) [ none ↦ false | some rest ↦ true ]

unfoldable pub is_mock_pubkey : String → Bool
is_mock_pubkey value =
    str_eq value "" || starts_with "mock_" value || str_eq value "pending_resolution"

abbrev pub codes : String → Bytes
codes String.[] = []
codes (String.◌∷◌ c s) = code c ∷ codes s

abbrev pub is_digit : Option ℕ → Bool
is_digit none = false
is_digit (some d) = true

unfoldable pub all_hex : Bytes → Bool
all_hex [] = true
all_hex (c ∷ cs) = is_digit (hex_value c) && all_hex cs

-- Behind base 58: 64 hexadecimal digits, or an exception.
unfoldable pub decode_hex : String → Option Bytes
decode_hex encoded =
    if length (codes encoded) == 64 && all_hex (codes encoded)
    then some (read_hex_text (codes encoded))
    else none

unfoldable pub decode_pubkey : (String → Option Bytes) → String → Option Bytes
decode_pubkey base58 encoded = elim (base58 encoded) [
  | none ↦ decode_hex encoded
  | some bytes ↦ if length bytes == 32 then some bytes else decode_hex encoded
]

-- Whom a page pays: the keys of the name, none that it can use, or keys that cannot be decoded, which
-- throws.
pub data Recipient : Type 0 where
  no_keys bad_keys : Recipient
  keys_of_name : StealthMetaAddress → Recipient

abbrev pub decoded_keys : ℕ → Option Bytes → Option Bytes → Recipient
decoded_keys version none spend = bad_keys
decoded_keys version (some scan) none = bad_keys
decoded_keys version (some scan) (some spend) = keys_of_name (record {
  scan_pubkey = scan;
  spend_pubkey = spend;
  version = if version == 0 then 1 else version;
})

unfoldable pub recipient_of : (String → Option Bytes) → Option MetaAddress → Recipient
recipient_of base58 none = no_keys
recipient_of base58 (some meta) =
    if is_mock_pubkey meta.scan_pubkey || is_mock_pubkey meta.spend_pubkey
    then no_keys
    else decoded_keys meta.version (decode_pubkey base58 meta.scan_pubkey)
        (decode_pubkey base58 meta.spend_pubkey)

pub data TxStatus : Type 0 where
  idle done error : TxStatus

module _ (Number : Type 0) where
  -- The body that is posted to the request's payments.
  pub record PaymentBody : Type 0 where
    pub tx_signature : Option String
    pub amount : Number
    pub payer_address : Option String

  -- The page behind a payment, the deposits that were confirmed, and what was posted.
  pub record PageRun : Type 0 where
    pub status : TxStatus
    pub signatures : List String
    pub made : List Made
    pub posted : Option PaymentBody

-- `payerAddress || ''`, the column of the payment's row.
unfoldable pub payer_column : Option String → String
payer_column none = ""
payer_column (some payer) = payer

unfoldable pub signatures_of : List Made → List String
signatures_of [] = []
signatures_of (d ∷ ds) = d.signature ∷ signatures_of ds

abbrev pub first_of : List String → Option String
first_of [] = none
first_of (s ∷ rest) = some s

-- A page's way to post: none, or with the payer's address or without it.
pub data Posting : Type 0 where
  no_post : Posting
  post_from : Option String → Posting

module _ {Number : Type 0} (units : Token → ℕ → Number) (p : Primitives) (poseidon : List ℕ → ℕ)
    (payer : Payer) (draw : ℕ → Draw) (base58 : String → Option Bytes) where
  abbrev pub failed_run : List Made → PageRun Number
  failed_run made = record { status = error; signatures = []; made = made; posted = none }

  unfoldable pub body_of : Posting → ℕ → Token → List Made → Option (PaymentBody Number)
  body_of no_post amount token made = none
  body_of (post_from address) amount token made = some (record {
    tx_signature = first_of (signatures_of made);
    amount = units token amount;
    payer_address = address;
  })

  -- Behind `executeDeposit`: an exception in one of the deposits loses the others' signatures.
  unfoldable pub after_deposit : Posting → ℕ → Token → Option DepositReply → PageRun Number
  after_deposit posting amount token none = failed_run []
  after_deposit posting amount token (some (not_planned plan)) = failed_run []
  after_deposit posting amount token (some (executed run)) =
      if run.complete
      then record {
        status = done;
        signatures = signatures_of run.made;
        made = run.made;
        posted = body_of posting amount token run.made;
      }
      else failed_run run.made

  unfoldable pub pay_keys : Posting → ℕ → Token → Bytes → PageRun Number
  pay_keys posting amount token scan_pubkey =
      after_deposit posting amount token
        (execute_deposit p poseidon payer scan_pubkey draw amount token)

  -- `generated` is the public scan key that the page makes itself where the name has none.
  unfoldable pub pay_generated : Posting → Option Bytes → ℕ → Token → PageRun Number
  pay_generated posting none amount token = failed_run []
  pay_generated posting (some scan_pubkey) amount token = pay_keys posting amount token scan_pubkey

  unfoldable pub pay_recipient : Posting → Option Bytes → ℕ → Token → Recipient → PageRun Number
  pay_recipient posting generated amount token bad_keys = failed_run []
  pay_recipient posting generated amount token no_keys =
      pay_generated posting generated amount token
  pay_recipient posting generated amount token (keys_of_name keys) =
      pay_keys posting amount token keys.scan_pubkey

  -- The split that is shown throws before anything else.
  unfoldable pub pay_split :
      Posting → Option Bytes → ℕ → Token → Option MetaAddress → Option Split → PageRun Number
  pay_split posting generated amount token meta none = failed_run []
  pay_split posting generated amount token meta (some (inexact r)) = failed_run []
  pay_split posting generated amount token meta (some (exact tiers)) =
      pay_recipient posting generated amount token (recipient_of base58 meta)

  -- `runDeposit` of [username]/[slug]/page.tsx.
  unfoldable pub slug_page : String → ℕ → Token → Option MetaAddress → PageRun Number
  slug_page wallet amount token meta =
      pay_split (post_from (some wallet)) none amount token meta
        (split_into_tiers amount (tiers_of token))

  -- `runDeposit` of [username]/request/[requestId]/page.tsx.
  unfoldable pub request_page : Bytes → ℕ → Token → Option MetaAddress → PageRun Number
  request_page generated amount token meta =
      pay_split (post_from none) (some generated) amount token meta
        (split_into_tiers amount (tiers_of token))

  -- `handleDeposit` of [username]/page.tsx.
  unfoldable pub profile_page : Bytes → ℕ → Token → Option MetaAddress → PageRun Number
  profile_page generated amount token meta =
      pay_split no_post (some generated) amount token meta
        (split_into_tiers amount (tiers_of token))

  -- `handleDeposit` of pay/[username]/page.tsx.
  unfoldable pub pay_page : ℕ → Token → Option MetaAddress → PageRun Number
  pay_page amount token meta =
      pay_split no_post none amount token meta (split_into_tiers amount (tiers_of token))
