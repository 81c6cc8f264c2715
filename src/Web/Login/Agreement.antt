-- ===== src/Web/Login/Agreement.antt =====
-- The keys that are registered are those that the login expects and that the dashboard scans with.
use skaus.Prelude.{
  ◌≡◌, ◌≢◌, refl, ap, ◌∙◌, sym, String, true, false, Option, none, some, List, [], ◌∷◌, inl, inr,
  Bool-cases, Option-cases, str_eq, eq_iff,
}
use skaus.Prelude.Bytes.{Bytes, concat, same_text}
use skaus.Names.Registration.{RegisterBody}
use skaus.Names.Routes.{OwnedName}
use skaus.Wallet.Scan.{ScannedDeposit}
use skaus.Web.Keys.{
  KeyPrimitives, empty_pin, pin_complete, SignReply, signed, sign_error, meta_keys_message,
  derive_keys, public_text,
}
use skaus.Web.Onboarding.{
  Onboarding, Host, register_body, after_sign, with_wallet, handle_confirm_and_register,
}
use skaus.Web.Login.{
  Login, judge_keys, judge_signature, verify_with, handle_verify_pin, has_key, key_of_signature,
  key_of_wallet, derive_scan_key, Scanner, scan_with, scan_deposits,
}

module _ (k : KeyPrimitives) (h : Host) where
  after_sign-scan_pubkey :
      (o : Onboarding) (s : Bytes) (body : RegisterBody) (wallet : String) (r : SignReply)
      → key_of_signature k h (concat o.pin_cells) r ≡ has_key s
      → (after_sign k h wallet r o).1 ≡ some body
      → body.scan_pubkey ≡ public_text k s
  unfolding key_of_signature after_sign register_body
  after_sign-scan_pubkey o s body wallet (sign_error true m) e posted = cc
  after_sign-scan_pubkey o s body wallet (sign_error false m) e posted = cc
  after_sign-scan_pubkey o s body wallet (signed signature) e posted =
      let same : (derive_keys k (concat o.pin_cells) signature).0 ≡ s = cc in
      let made : register_body k h o.name wallet (concat o.pin_cells) signature ≡ body = cc in
      sym (ap (λ (b : RegisterBody). b.scan_pubkey) made) ∙ ap (public_text k) same

  key_of_wallet-signature :
      (pin s : Bytes) (wallet : String)
      → key_of_wallet k h pin (some wallet) ≡ has_key s
      → key_of_signature k h pin (h.sign (meta_keys_message pin wallet)) ≡ has_key s
  unfolding key_of_wallet
  key_of_wallet-signature [] s wallet e = cc
  key_of_wallet-signature (c ∷ cs) s wallet e = e

  with_wallet-scan_pubkey :
      (o : Onboarding) (s : Bytes) (body : RegisterBody) (w : Option String)
      → key_of_wallet k h (concat o.pin_cells) w ≡ has_key s
      → (with_wallet k h w o).1 ≡ some body
      → body.scan_pubkey ≡ public_text k s
  unfolding with_wallet key_of_wallet
  with_wallet-scan_pubkey o s body none e posted = cc
  with_wallet-scan_pubkey o s body (some wallet) e posted =
      after_sign-scan_pubkey o s body wallet
        (h.sign (meta_keys_message (concat o.pin_cells) wallet))
        (key_of_wallet-signature (concat o.pin_cells) s wallet e) posted

  -- The body that is posted carries the public key of the key that the dashboard derives of the PIN.
  pub register-scan_pubkey :
      (o : Onboarding) (s : Bytes) (body : RegisterBody)
      → derive_scan_key k h none (concat o.pin_cells) ≡ has_key s
      → (handle_confirm_and_register k h o).1 ≡ some body
      → body.scan_pubkey ≡ public_text k s
  unfolding handle_confirm_and_register derive_scan_key
  register-scan_pubkey o s body e posted =
      elim (Bool-cases (same_text (concat o.pin_cells) (concat o.confirm_cells))) [
        | inl same ↦ with_wallet-scan_pubkey _ s body h.wallet e (rw same at posted)
        | inr other ↦ let p = rw other at posted in cc
      ]

  module _ (target : String) where
    -- The login goes on exactly if the first name has the public key of the derived key.
    judge_signature-pushed :
        (wallet : String) (s : Bytes) (n : OwnedName) (names : List OwnedName) (l : Login)
        (r : SignReply)
        → l.pushed ≡ none
        → key_of_signature k h (concat l.pin_cells) r ≡ has_key s
        → let after = judge_signature k h target wallet r (n ∷ names) l in
          (n.scan_pubkey ≡ public_text k s → after.pushed ≡ some target)
          × (n.scan_pubkey ≢ public_text k s
              → (after.pushed ≡ none) × (after.pin_cells ≡ empty_pin))
    unfolding judge_signature judge_keys key_of_signature
    judge_signature-pushed wallet s n names l (sign_error b m) u e = absurd (cc)
    judge_signature-pushed wallet s n names l (signed signature) u e =
        let same : (derive_keys k (concat l.pin_cells) signature).0 ≡ s = cc in
        let test = eq_iff (public_text k s) n.scan_pubkey in
        rw same (
          λ q. let yes' : str_eq (public_text k s) n.scan_pubkey ≡ true = test.1 (sym q) in rw yes',
          λ q. elim (Bool-cases (str_eq (public_text k s) n.scan_pubkey)) [
            | inl t ↦ absurd (q (sym (test.0 t)))
            | inr f ↦ rw f (u, refl)
          ],
        )

    verify_with-pushed :
        (s : Bytes) (n : OwnedName) (names : List OwnedName) (l : Login) (w : Option String)
        → l.pushed ≡ none
        → key_of_wallet k h (concat l.pin_cells) w ≡ has_key s
        → let after = verify_with k h target w (some (n ∷ names)) l in
          (n.scan_pubkey ≡ public_text k s → after.pushed ≡ some target)
          × (n.scan_pubkey ≢ public_text k s
              → (after.pushed ≡ none) × (after.pin_cells ≡ empty_pin))
    unfolding verify_with key_of_wallet
    verify_with-pushed s n names l none u e = absurd (cc)
    verify_with-pushed s n names l (some wallet) u e =
        judge_signature-pushed wallet s n names _
          (h.sign (meta_keys_message (concat l.pin_cells) wallet)) u
          (key_of_wallet-signature (concat l.pin_cells) s wallet e)

    -- If the PIN of the login has six characters, the page has not gone on, and the dashboard derives a
    -- key from the same PIN: the login goes on to its target if the first name of the lookup has the
    -- text of that key's public key, and otherwise stays, with the PIN's cells emptied.
    pub handle_verify_pin-pushed :
        (s : Bytes) (n : OwnedName) (names : List OwnedName) (l : Login)
        → pin_complete l.pin_cells ≡ true
        → l.pushed ≡ none
        → derive_scan_key k h none (concat l.pin_cells) ≡ has_key s
        → let after = handle_verify_pin k h target (some (n ∷ names)) l in
          (n.scan_pubkey ≡ public_text k s → after.pushed ≡ some target)
          × (n.scan_pubkey ≢ public_text k s
              → (after.pushed ≡ none) × (after.pin_cells ≡ empty_pin))
    unfolding handle_verify_pin derive_scan_key
    handle_verify_pin-pushed s n names l full u e =
        rw full (verify_with-pushed s n names l h.wallet u e)

    -- What the onboarding posts for a PIN is what the login of that PIN accepts: if the login's PIN is
    -- that of the onboarding and has six characters, the page has not gone on, the dashboard derives a key
    -- from it, the onboarding posted a body, and the first name of the lookup has the body's scan key,
    -- the login goes on to its target.
    pub handle_verify_pin-registered :
        (o : Onboarding) (s : Bytes) (body : RegisterBody) (n : OwnedName) (names : List OwnedName)
        (l : Login)
        → derive_scan_key k h none (concat o.pin_cells) ≡ has_key s
        → (handle_confirm_and_register k h o).1 ≡ some body
        → n.scan_pubkey ≡ body.scan_pubkey
        → l.pin_cells ≡ o.pin_cells
        → pin_complete l.pin_cells ≡ true
        → l.pushed ≡ none
        → (handle_verify_pin k h target (some (n ∷ names)) l).pushed ≡ some target
    handle_verify_pin-registered o s body n names l e posted same cells full u =
        let key : derive_scan_key k h none (concat l.pin_cells) ≡ has_key s =
          ap (λ c. derive_scan_key k h none (concat c)) cells ∙ e in
        (handle_verify_pin-pushed s n names l full u key).0
          (same ∙ register-scan_pubkey o s body e posted)

module _ (k : KeyPrimitives) (h : Host) (scan : Bytes → Option (List ScannedDeposit))
    (scan_message : String) where
  scan_with-scan_key :
      (key : Bytes) (s : Scanner)
      → (scan_with k h scan scan_message (has_key key) s).0.scan_key ≡ some key
  unfolding scan_with
  scan_with-scan_key key s = elim (Option-cases (scan key)) [
    | inl e ↦ rw e
    | inr ([], e) ↦ rw e
    | inr (d ∷ ds, e) ↦ rw e
  ]

  -- The first key that is derived stays: if the page holds no key and a scan derives one from its PIN,
  -- the page holds that key afterwards, and a scan for any other PIN comes to what a scan for the
  -- first one comes to.
  pub scan_deposits-first_pin :
      (p q key : Bytes) (s : Scanner)
      → s.scan_key ≡ none
      → derive_scan_key k h none p ≡ has_key key
      → let after = (scan_deposits k h scan scan_message p s).0 in
        (after.scan_key ≡ some key)
        × (scan_deposits k h scan scan_message q after
            ≡ scan_deposits k h scan scan_message p after)
  unfolding scan_deposits scan_with derive_scan_key
  scan_deposits-first_pin p q key s fresh e =
      let derived : derive_scan_key k h s.scan_key p ≡ has_key key =
        ap (λ o. derive_scan_key k h o p) fresh ∙ e in
      let after = (scan_deposits k h scan scan_message p s).0 in
      let kept : after.scan_key ≡ some key =
        rw derived (scan_with-scan_key key (record s { scan_error = none })) in
      (
        kept,
        ap (λ r. scan_with k h scan scan_message r (record after { scan_error = none }))
            (ap (λ o. derive_scan_key k h o q) kept ∙ sym (ap (λ o. derive_scan_key k h o p) kept)),
      )
