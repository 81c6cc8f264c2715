-- ===== src/Web/Login.antt =====
-- apps/web/src/app/login/page.tsx, and the scan of apps/web/src/app/dashboard/page.tsx: the keys of the
-- PIN are checked, and the dashboard scans with them. The wallet, the gateway and the chain are
-- arguments; a message that is shown is a text.
pub mod Agreement
use Prim.Native.String.{◌++◌ as append}
use skaus.Prelude.{
  String, Bool, true, false, Option, none, some, List, [], ◌∷◌, if◌then◌else◌, str_eq, map,
}
use skaus.Prelude.Bytes.{Bytes, concat}
use skaus.Names.Routes.{OwnedName}
use skaus.Wallet.Scan.{ScannedDeposit}
use skaus.Web.Withdrawals.{DashboardDeposit, available}
use skaus.Web.Keys.{
  KeyPrimitives, empty_pin, pin_complete, SignReply, signed, sign_error, meta_keys_message,
  derive_keys, public_text,
}
use skaus.Web.Onboarding.{Host, or_default, stored}

pub data LoginStep : Type 0 where
  auth checking enter_pin verifying : LoginStep

pub record Login : Type 0 where
  pub login_step : LoginStep
  pub pin_cells : List Bytes
  pub message : String
  pub saved : Option (String × String)
  pub pushed : Option String

-- `redirect ? (name ? ... : redirect) : '/dashboard'`; an absent parameter is the empty text.
unfoldable pub destination : String → String → String
destination redirect name =
    if str_eq redirect ""
    then "/dashboard"
    else if str_eq name ""
    then redirect
    else append redirect (append "?name=" name)

-- `if (username)`
abbrev pub saved_name :
    Bool → Option String → String → Option (String × String) → Option (String × String)
saved_name stores none wallet saved = saved
saved_name stores (some name) wallet saved =
    if str_eq name "" then saved else stored stores name wallet saved

abbrev pub back_to_pin : String → Login → Login
back_to_pin text s = record s { login_step = enter_pin; pin_cells = empty_pin; message = text }

module _ (k : KeyPrimitives) (h : Host) (target : String) where
  unfoldable pub judge_keys : String → Bytes → List OwnedName → Login → Login
  judge_keys wallet scan_privkey [] s = back_to_pin "Cannot read properties of undefined" s
  judge_keys wallet scan_privkey (n ∷ names) s =
      if str_eq (public_text k scan_privkey) n.scan_pubkey
      then record s { saved = saved_name h.stores n.username wallet s.saved; pushed = some target }
      else back_to_pin "Incorrect PIN. Please try again." s

  unfoldable pub judge_signature : String → SignReply → List OwnedName → Login → Login
  judge_signature wallet (sign_error true text) names s = record s {
    login_step = enter_pin;
    message = "Signature was rejected. Please approve to continue.";
  }
  judge_signature wallet (sign_error false text) names s =
      back_to_pin (or_default text "Verification failed. Please try again.") s
  judge_signature wallet (signed signature) names s =
      judge_keys wallet (derive_keys k (concat s.pin_cells) signature).0 names s

  -- `handleVerifyPin`, with the names that the lookup gave.
  unfoldable pub verify_with : Option String → Option (List OwnedName) → Login → Login
  verify_with none names s = s
  verify_with (some wallet) none s = s
  verify_with (some wallet) (some names) s =
      judge_signature wallet (h.sign (meta_keys_message (concat s.pin_cells) wallet)) names
        (record s { login_step = verifying; message = "" })

  unfoldable pub handle_verify_pin : Option (List OwnedName) → Login → Login
  handle_verify_pin names s = if pin_complete s.pin_cells then verify_with h.wallet names s else s

-- The scan of the dashboard: the key that `scanKeyRef` holds, and what is shown.
pub record Scanner : Type 0 where
  pub scan_key : Option Bytes
  pub deposits : List DashboardDeposit
  pub scan_error : Option String

abbrev pub entry : ScannedDeposit → DashboardDeposit
entry d = record { deposit = d; status = available; withdraw_tx = none; withdraw_error = none }

-- What `deriveScanKey` comes to: the key, or a message, which may be of the user's refusal.
pub data KeyReply : Type 0 where
  no_key : Bool → String → KeyReply
  has_key : Bytes → KeyReply

module _ (k : KeyPrimitives) (h : Host) where
  unfoldable pub key_of_signature : Bytes → SignReply → KeyReply
  key_of_signature pin (sign_error by_user message) = no_key by_user message
  key_of_signature pin (signed signature) = has_key (derive_keys k pin signature).0

  unfoldable pub key_of_wallet : Bytes → Option String → KeyReply
  key_of_wallet pin none = no_key false "No wallet connected"
  key_of_wallet [] (some wallet) = no_key false "PIN is required to derive your scan key."
  key_of_wallet (c ∷ cs) (some wallet) =
      key_of_signature (c ∷ cs) (h.sign (meta_keys_message (c ∷ cs) wallet))

  -- `deriveScanKey`
  unfoldable pub derive_scan_key : Option Bytes → Bytes → KeyReply
  derive_scan_key (some key) pin = has_key key
  derive_scan_key none pin = key_of_wallet pin h.wallet

  module _ (scan : Bytes → Option (List ScannedDeposit)) (scan_message : String) where
    abbrev pub shown : List ScannedDeposit → Scanner → Scanner
    shown [] s = record s {
      deposits = [];
      scan_error = some "No deposits found. Make sure someone has sent you a payment first.";
    }
    shown (d ∷ ds) s = record s { deposits = map entry (d ∷ ds); scan_error = none }

    abbrev pub scanned : Option (List ScannedDeposit) → Scanner → Scanner × Bool
    scanned none s = (
      record s {
        scan_error = some (or_default scan_message "Failed to scan. Is the gateway running?");
      },
      false,
    )
    scanned (some found) s = (shown found s, true)

    unfoldable pub scan_with : KeyReply → Scanner → Scanner × Bool
    scan_with (no_key true message) s =
        (record s { scan_error = some "Signature required to derive your scan key." }, false)
    scan_with (no_key false message) s = (
      record s { scan_error = some (or_default message "Failed to scan. Is the gateway running?") },
      false,
    )
    scan_with (has_key key) s = scanned (scan key) (record s { scan_key = some key })

    -- `scanDeposits`: the page, and whether the modal is closed.
    unfoldable pub scan_deposits : Bytes → Scanner → Scanner × Bool
    scan_deposits pin s =
        scan_with (derive_scan_key s.scan_key pin) (record s { scan_error = none })

    -- `handleScanFromModal`
    unfoldable pub handle_scan_from_modal : List Bytes → Scanner → Option (Scanner × Bool)
    handle_scan_from_modal pin s =
        if pin_complete pin then some (scan_deposits (concat pin) s) else none
