-- ===== src/Web/Payments/Unclaimed.antt =====
-- What the gateway makes of a payment that has no payer.
use skaus.Prelude.{
  ℕ, ◌≡◌, ◌≢◌, refl, String, Bool, false, Option, none, some, List, inl, inr, Bool-cases, ap, sym,
  ◌∙◌, str_eq, eq_iff,
}
use skaus.Prelude.Bytes.{Bytes}
use skaus.Requests.Row.{Numbers}
use skaus.Notes.Encryption.{Primitives}
use skaus.Deposit.Tiers.{Token, Split, exact, inexact, tiers_of, split_into_tiers}
use skaus.Deposit.Execution.{Draw, Payer, DepositReply, not_planned, executed, execute_deposit}
use skaus.Profiles.Gated.{Cipher, GatedProfile, GatedPayment, AccessRequest, unlocked, access_gated}
use skaus.Profiles.Gated.Access.{access_gated-IsGranted}
use skaus.Web.Payments.{
  MetaAddress, Recipient, no_keys, bad_keys, keys_of_name, recipient_of, PaymentBody, post_from,
  payer_column, body_of, after_deposit, pay_keys, pay_generated, pay_recipient, pay_split,
  request_page,
}

module _ {Number : Type 0} (units : Token → ℕ → Number) (p : Primitives) (poseidon : List ℕ → ℕ)
    (payer : Payer) (draw : ℕ → Draw) (base58 : String → Option Bytes) where
  -- The address of a payment that the page of a request posts.
  some_payer :
      {b c : PaymentBody Number} → some b ≡ some c → b.payer_address ≡ none → c.payer_address ≡ none
  some_payer e h = cc

  after_deposit-posted :
      (amount : ℕ) (token : Token) (o : Option DepositReply) (body : PaymentBody Number)
      → (after_deposit units p poseidon payer draw base58 (post_from none) amount token o).posted
        ≡ some body
      → body.payer_address ≡ none
  unfolding after_deposit body_of
  after_deposit-posted amount token none body h = cc
  after_deposit-posted amount token (some (not_planned plan)) body h = cc
  after_deposit-posted amount token (some (executed run)) body h = elim (Bool-cases run.complete) [
    | inl e ↦ let f = rw e at h in some_payer f refl
    | inr e ↦ let f = rw e at h in cc
  ]

  recipient-posted :
      (generated : Bytes) (amount : ℕ) (token : Token) (r : Recipient) (body : PaymentBody Number)
      → (pay_recipient units p poseidon payer draw base58
          (post_from none)
          (some generated)
          amount
          token
          r).posted
        ≡ some body
      → body.payer_address ≡ none
  unfolding pay_recipient pay_generated pay_keys
  recipient-posted generated amount token bad_keys body h = cc
  recipient-posted generated amount token no_keys body h =
      after_deposit-posted amount token
        (execute_deposit p poseidon payer generated draw amount token) body h
  recipient-posted generated amount token (keys_of_name keys) body h =
      after_deposit-posted amount token
        (execute_deposit p poseidon payer keys.scan_pubkey draw amount token) body h

  pay_split-posted :
      (generated : Bytes) (amount : ℕ) (token : Token) (meta : Option MetaAddress)
      (o : Option Split) (body : PaymentBody Number)
      → (pay_split units p poseidon payer draw base58
          (post_from none)
          (some generated)
          amount
          token
          meta
          o).posted
        ≡ some body
      → body.payer_address ≡ none
  unfolding pay_split
  pay_split-posted generated amount token meta none body h = cc
  pay_split-posted generated amount token meta (some (inexact r)) body h = cc
  pay_split-posted generated amount token meta (some (exact ds)) body h =
      recipient-posted generated amount token (recipient_of base58 meta) body h

some_same {ℓ} : {A : Type ℓ} {a b : A} → some a ≡ some b → a ≡ b
some_same e = cc

no_text : (text : String) → text ≡ "" → str_eq text "" ≢ false
no_text text e f = let t = (eq_iff text "").1 e in cc

-- A payment that the page of a request posted unlocks nothing: if the payment's row has the address that
-- was posted, or the empty text for none, no request for gated content with it is answered by the
-- content.
pub access_gated-request_page :
    (n : Numbers) (units : Token → ℕ → n.Number) (p : Primitives) (poseidon : List ℕ → ℕ)
    (payer : Payer) (draw : ℕ → Draw) (base58 : String → Option Bytes) (generated : Bytes)
    (amount : ℕ) (token : Token) (meta : Option MetaAddress) (body : PaymentBody n.Number)
    (cipher : Cipher) (lower : String → String) (verify : String → String → String → Bool)
    (q : AccessRequest n) (profile : Option (GatedProfile n)) (paid : GatedPayment n)
    (plain : Bytes)
    → (request_page units p poseidon payer draw base58 generated amount token meta).posted
      ≡ some body
    → paid.payer_address ≡ some (payer_column body.payer_address)
    → access_gated n cipher lower verify q profile (some paid) ≢ unlocked plain
unfolding request_page payer_column
access_gated-request_page n units p poseidon payer draw base58 generated amount token meta body
      cipher lower verify q profile paid plain posted row granted =
    let g = access_gated-IsGranted n cipher lower verify q profile (some paid) plain granted in
    let none_posted =
      pay_split-posted units p poseidon payer draw base58 generated amount token meta
        (split_into_tiers amount (tiers_of token)) body posted in
    let payment = g.granted in
    let payer = payment.payer in
    let column : payer_column body.payer_address ≡ "" = ap payer_column none_posted in
    let address : payer.address ≡ "" = some_same (
      sym payer.recorded
      ∙ ap (λ (x : GatedPayment n). x.payer_address) (sym (some_same payment.found))
      ∙ row
      ∙ ap some column) in
    no_text payer.address address payer.filled
