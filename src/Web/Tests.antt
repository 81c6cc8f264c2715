-- ===== src/Web/Tests.antt =====
-- Runs of the pages at concrete inputs.
use skaus.Prelude.{
  ℕ, ◌+◌, ◌≡◌, ◌≢◌, refl, String, true, false, Option, none, some, List, [], ◌∷◌, ◌||◌, ◌==◌, All,
  length, replicate, ltb, leb, arith,
}
use skaus.Prelude.Bytes.{Bytes, concat, sum, le_bytes, same_text}
use skaus.Indexer.Events.{pos}
use skaus.Wallet.Scan.{ScannedDeposit, scan_deposits_on_chain}
use skaus.Names.Registration.{RegisterBody}
use skaus.Names.Routes.{OwnedName}
use skaus.Profiles.Gated.{Cipher, strip_prefix, AccessRequest, GatedPayment, unlocked, access_gated}
use skaus.Requests.Row.{Numbers}
use skaus.Notes.Encryption.{
  Primitives, encrypt_note, xor_cipher, xor_from, serialize_note, compute_tag,
}
use skaus.Deposit.Transaction.{build_deposit_transaction, deposit_data, deposit_bytes}
use skaus.Deposit.Execution.{
  execute_deposit, execute_plan, execute_from, make_deposit, made_of, compute_commitment,
}
use skaus.Withdraw.Hex.{bigint_to_bytes32_be, to_hex, to_hex_fuel, pad_start, from_hex}
use skaus.Relayer.Instruction.{u64_le}
use skaus.Deposit.Tiers.{
  Token, usdc, split_into_tiers, split_from, peel, insert, sort, plan_deposit,
}
use skaus.Deposit.Tests.{key32, primitives, poseidon, payer, draw, place, hex, not_sol, sound}
use skaus.Deposit.Execution.Total.{amounts, found_amounts, accounts}
use skaus.Web.Keys.{KeyPrimitives, empty_pin, handle_pin_input, pin_complete, signed, derive_keys}
use skaus.Web.Keys.Pin.{IsCell, untouched, input, empty_cells, Typed-IsPin}
use skaus.Web.Onboarding.{
  confirm, Onboarding, build_made, confirmed, Host, register_body, after_sign, with_wallet,
  handle_confirm_and_register,
}
use skaus.Web.Login.{
  enter_pin, Login, handle_verify_pin, Scanner, has_key, key_of_signature, key_of_wallet,
  derive_scan_key, scan_deposits,
}
use skaus.Web.Login.Agreement.{handle_verify_pin-registered, scan_deposits-first_pin}
use skaus.Web.Payments.{
  MetaAddress, is_mock_pubkey, decode_pubkey, recipient_of, done, slug_page, request_page,
  PaymentBody, pay_split, pay_recipient, pay_keys, after_deposit, body_of, signatures_of,
  payer_column,
}
use skaus.Web.Payments.Found.{slug_page-found}
use skaus.Web.Payments.Unclaimed.{access_gated-request_page}
use skaus.Web.Withdrawals.{
  DashboardDeposit, available, withdrawn, Dashboard, Round, find_deposit, confirm_withdraw,
}
use skaus.Web.Withdrawals.Handled.{Handles}
use skaus.Web.Withdrawals.Confirm.{confirm_withdraw-Handles}

abbrev deposit : String → ℕ → ScannedDeposit
deposit id amount = record {
  id = id;
  commitment = id;
  leaf_index = 5;
  amount = amount;
  token = "USDC";
  timestamp = pos 1_700_000_000;
  tx_signature = "sig";
  note_data = record {
    secret = 11;
    nullifier = 12;
    amount = amount;
    token_mint = "mint";
    ephemeral_pubkey = [];
  };
}

abbrev shown : String → ℕ → DashboardDeposit
shown id amount = record {
  deposit = deposit id amount;
  status = available;
  withdraw_tx = none;
  withdraw_error = none;
}

abbrev dashboard : Dashboard
dashboard = record {
  deposits = shown "a" 10 ∷ record (shown "b" 20) { status = withdrawn } ∷ shown "c" 5 ∷ [];
  selected = "a" ∷ "b" ∷ [];
  modal = some ("a" ∷ "b" ∷ []);
  address_error = false;
  running = false;
  progress = (0, 0);
}

abbrev answers : ℕ → Round
answers i = record {
  root_query = some none;
  root_error = "offline";
  pool_account = none;
  prove = λ inputs. none;
  prove_error = "no artifacts";
  submit = λ q. some "tx";
  submit_error = "refused";
}

abbrev sum_poseidon : List ℕ → ℕ
sum_poseidon [] = 0
sum_poseidon (x ∷ xs) = x + sum_poseidon xs

abbrev decoded : String → Option Bytes
decoded text = some (1 ∷ [])

confirm_withdraw-Handles_example :
    let r = confirm_withdraw sum_poseidon true decoded answers "wallet" dashboard in
    Handles sum_poseidon true decoded answers "wallet"
      ("a" ∷ "b" ∷ [])
      dashboard.deposits
      []
      []
      r.page.deposits
      r.begun
      r.calls
    × (r.page.modal ≡ none)
unfolding find_deposit
confirm_withdraw-Handles_example =
    confirm_withdraw-Handles sum_poseidon true decoded answers "wallet" dashboard "a" ("b" ∷ [])
      (1 ∷ []) (refl, (refl, (refl, tt))) refl refl refl

-- The wallet signs everything, and every seed gives one key.
abbrev key_primitives : KeyPrimitives
key_primitives = record {
  sha256 = λ bs. bs;
  hkdf = λ seed salt info. 2 ∷ [];
  public_key = λ x. key32;
  base58 = λ bs. "key";
}

abbrev host : Host
host = record {
  wallet = some "wallet";
  sign = λ m. signed (7 ∷ []);
  register = λ b. build_made "tx";
  send = λ t. confirmed "sig";
  stores = true;
}

abbrev typed : List Bytes
typed = replicate 6 (49 ∷ [])

abbrev onboarding : Onboarding
onboarding = record {
  step = confirm;
  name = "ada";
  pin_cells = typed;
  confirm_cells = typed;
  pin_error = false;
  reg_error = "";
  tx_signature = "";
  saved = none;
}

abbrev body : RegisterBody
body = record { username = "ada"; authority = "wallet"; scan_pubkey = "key"; spend_pubkey = "key" }

abbrev owned : OwnedName
owned = record {
  pda = "pda";
  name_hash = "hash";
  scan_pubkey = "key";
  spend_pubkey = "key";
  username = some "ada";
}

abbrev login : Login
login = record {
  login_step = enter_pin;
  pin_cells = typed;
  message = "";
  saved = none;
  pushed = none;
}

derived : derive_scan_key key_primitives host none (concat typed) ≡ has_key (2 ∷ [])
unfolding derive_scan_key key_of_wallet key_of_signature derive_keys
derived = refl

posted_body : (handle_confirm_and_register key_primitives host onboarding).1 ≡ some body
unfolding handle_confirm_and_register same_text with_wallet after_sign register_body derive_keys
posted_body = refl

full : pin_complete typed ≡ true
unfolding pin_complete
full = refl

handle_verify_pin-registered_example :
    (handle_verify_pin key_primitives host "/dashboard" (some (owned ∷ [])) login).pushed
    ≡ some "/dashboard"
handle_verify_pin-registered_example =
    handle_verify_pin-registered key_primitives host "/dashboard" onboarding (2 ∷ []) body owned []
      login derived posted_body refl refl full refl

abbrev scanner : Scanner
scanner = record { scan_key = none; deposits = []; scan_error = none }

scan_deposits-first_pin_example :
    let scan = scan_deposits key_primitives host (λ s. some []) "offline" in
    let after = (scan (concat typed) scanner).0 in
    (after.scan_key ≡ some (2 ∷ [])) × (scan (50 ∷ []) after ≡ scan (concat typed) after)
scan_deposits-first_pin_example =
    scan_deposits-first_pin key_primitives host (λ s. some []) "offline" (concat typed) (50 ∷ [])
      (2 ∷ []) scanner refl derived

Typed-IsPin_example :
    let pin = handle_pin_input 0 (49 ∷ []) empty_pin in
    (length pin ≡ 6) × All IsCell pin × (pin_complete pin ≡ (empty_cells pin == 0))
Typed-IsPin_example =
    Typed-IsPin (handle_pin_input 0 (49 ∷ []) empty_pin) (input 0 (49 ∷ []) untouched)

abbrev base58 : String → Option Bytes
base58 text = some key32

abbrev meta : MetaAddress
meta = record { scan_pubkey = "key"; spend_pubkey = "key"; version = 1 }

abbrev cents : Token → ℕ → ℕ
cents token amount = amount

real : (is_mock_pubkey "key" || is_mock_pubkey "key") ≡ false
unfolding is_mock_pubkey strip_prefix
real = refl

decodable : decode_pubkey base58 "key" ≡ some key32
unfolding decode_pubkey
decodable = refl

slug_page-found_example :
    let page =
      slug_page cents primitives poseidon payer draw base58 "wallet" 30_000 usdc (some meta) in
    let found = found_amounts (
      scan_deposits_on_chain primitives (2 ∷ []) hex not_sol (
        accounts primitives poseidon payer
          (2 ∷ [])
          draw
          (replicate 8 1)
          (replicate 32 2)
          []
          place
          0
          page.made)) in
    (found ≡ amounts page.made) × (page.status ≡ done → sum found ≡ 30_000)
slug_page-found_example =
    slug_page-found cents primitives poseidon payer draw base58 key_primitives (λ x. refl)
      (λ x. refl) host onboarding (2 ∷ []) (replicate 8 1) (replicate 32 2) [] place hex not_sol
      sound "wallet" body meta key32 usdc 30_000 derived posted_body refl real decodable
      (omega arith) (omega arith)

abbrev short : Primitives
short = record primitives { to_json = λ j. 1 ∷ [] }

abbrev whole : Numbers
whole = record { Number = ℕ; nought = 0; add = ◌+◌; less = ltb; at_most = leb; is_nan = λ x. false }

abbrev posted_payment : PaymentBody ℕ
posted_payment = record { tx_signature = some "sig"; amount = 10_000; payer_address = none }

posts :
    (request_page cents short poseidon payer draw base58 key32 10_000 usdc (some meta)).posted
    ≡ some posted_payment
unfolding request_page pay_split pay_recipient pay_keys after_deposit body_of signatures_of
    recipient_of is_mock_pubkey strip_prefix decode_pubkey split_into_tiers split_from peel sort
    execute_deposit plan_deposit execute_plan execute_from make_deposit made_of
    build_deposit_transaction deposit_data deposit_bytes u64_le le_bytes insert encrypt_note
    xor_cipher xor_from serialize_note compute_tag compute_commitment bigint_to_bytes32_be to_hex
    to_hex_fuel pad_start from_hex
posts = refl

abbrev cipher : Cipher
cipher = record { seal = λ iv text. (text, []); unseal = λ iv text tag. some text }

abbrev asked : AccessRequest whole
asked = record {
  username = "ada";
  content_id = "c";
  tx_signature = "sig";
  requester_address = "wallet";
  challenge_signature = "signed";
}

abbrev paid_row : GatedPayment whole
paid_row = record { username = "ada"; amount = 10_000; payer_address = some "" }

access_gated-request_page_example :
    access_gated whole cipher (λ t. t) (λ a b c. true) asked none (some paid_row)
    ≢ unlocked (104 ∷ [])
unfolding payer_column
access_gated-request_page_example =
    access_gated-request_page whole cents short poseidon payer draw base58 key32 10_000 usdc
      (some meta) posted_payment cipher (λ t. t) (λ a b c. true) asked none paid_row (104 ∷ [])
      posts refl
