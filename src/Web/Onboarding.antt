-- ===== src/Web/Onboarding.antt =====
-- apps/web/src/app/onboarding/page.tsx: the registration of a name with the keys that the wallet and a
-- PIN make. The wallet, the gateway and the chain are arguments; a message that is shown is a text.
use skaus.Prelude.{String, Bool, true, false, ◌||◌, Option, none, some, List, if◌then◌else◌, str_eq}
use skaus.Prelude.Bytes.{Bytes, concat, same_text}
use skaus.Profiles.Gated.{strip_prefix}
use skaus.Names.Registration.{RegisterBody}
use skaus.Web.Keys.{
  KeyPrimitives, empty_pin, pin_complete, SignReply, signed, sign_error, meta_keys_message,
  derive_keys, public_text,
}

pub data Step : Type 0 where
  choose_name choose_pin confirm registering done : Step

-- `saved` is the name and the wallet in the browser's storage.
pub record Onboarding : Type 0 where
  pub step : Step
  pub name : String
  pub pin_cells : List Bytes
  pub confirm_cells : List Bytes
  pub pin_error : Bool
  pub reg_error : String
  pub tx_signature : String
  pub saved : Option (String × String)

-- `buildRegisterTransaction`: an exception, a refusal with its error, or the transaction's text.
pub data BuildReply : Type 0 where
  build_error build_refused build_made : String → BuildReply

-- The signing, the sending and the confirmation of the transaction.
pub data SendReply : Type 0 where
  confirmed send_error : String → SendReply

-- `stores` is whether the browser's storage takes the name.
pub record Host : Type 0 where
  pub wallet : Option String
  pub sign : Bytes → SignReply
  pub register : RegisterBody → BuildReply
  pub send : String → SendReply
  pub stores : Bool

unfoldable pub or_default : String → String → String
or_default text default = if str_eq text "" then default else text

-- `text.includes(part)`
unfoldable pub contains : String → String → Bool
contains part String.[] = str_eq part ""
contains part (String.◌∷◌ c text) = elim (strip_prefix part (String.◌∷◌ c text)) [
  | some rest ↦ true
  | none ↦ contains part text
]

-- The message in the outer `catch`.
unfoldable pub registration_error : String → String
registration_error message =
    let text = or_default message "Something went wrong" in
    if contains "debit an account" text || contains "insufficient" text
    then "Transaction failed: relayer has insufficient funds. Please contact support."
    else text

unfoldable pub handle_pin_submit : Onboarding → Onboarding
handle_pin_submit s =
    if pin_complete s.pin_cells
    then record s { step = confirm; pin_error = false; confirm_cells = empty_pin }
    else s

abbrev pub failed_registration : String → Onboarding → Onboarding
failed_registration message s = record s { step = confirm; reg_error = message }

abbrev pub stored : Bool → String → String → Option (String × String) → Option (String × String)
stored true name wallet saved = some (name, wallet)
stored false name wallet saved = saved

module _ (k : KeyPrimitives) (h : Host) where
  unfoldable pub register_body : String → String → Bytes → Bytes → RegisterBody
  register_body name wallet pin signature =
      let keys = derive_keys k pin signature in
      record {
        username = name;
        authority = wallet;
        scan_pubkey = public_text k keys.0;
        spend_pubkey = public_text k keys.1;
      }

  unfoldable pub after_send : String → SendReply → Onboarding → Onboarding
  after_send wallet (send_error message) s = failed_registration (registration_error message) s
  after_send wallet (confirmed signature) s = record s {
    step = done;
    tx_signature = signature;
    saved = stored h.stores s.name wallet s.saved;
  }

  unfoldable pub after_build : String → BuildReply → Onboarding → Onboarding
  after_build wallet (build_error message) s = failed_registration (registration_error message) s
  after_build wallet (build_refused message) s =
      failed_registration (or_default message "Failed to build transaction") s
  after_build wallet (build_made transaction) s =
      if str_eq transaction ""
      then failed_registration "Failed to build transaction" s
      else after_send wallet (h.send transaction) s

  -- The page behind the signing, and the body that was posted.
  unfoldable pub after_sign : String → SignReply → Onboarding → Onboarding × Option RegisterBody
  after_sign wallet (sign_error true message) s = (
    failed_registration "Signature was rejected. Please approve the wallet signature to continue."
        s,
    none,
  )
  after_sign wallet (sign_error false message) s =
      (failed_registration (registration_error message) s, none)
  after_sign wallet (signed signature) s =
      let body = register_body s.name wallet (concat s.pin_cells) signature in
      (after_build wallet (h.register body) s, some body)

  unfoldable pub with_wallet : Option String → Onboarding → Onboarding × Option RegisterBody
  with_wallet none s = (failed_registration (registration_error "No wallet connected") s, none)
  with_wallet (some wallet) s =
      after_sign wallet (h.sign (meta_keys_message (concat s.pin_cells) wallet)) s

  unfoldable pub handle_confirm_and_register : Onboarding → Onboarding × Option RegisterBody
  handle_confirm_and_register s =
      if same_text (concat s.pin_cells) (concat s.confirm_cells)
      then with_wallet h.wallet (record s { step = registering; reg_error = "" })
      else (record s { pin_error = true; confirm_cells = empty_pin }, none)
