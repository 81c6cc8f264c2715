-- ===== src/Web/Payments/Found.antt =====
-- From the registration of a name over a payment to the scan of the dashboard.
use skaus.Prelude.{
  ℕ, ◌%◌, ◌≤◌, ◌≡◌, refl, ap, ◌∙◌, String, Bool, true, false, ◌||◌, Option, none, some, List,
  length, ◌==◌, ltb, if◌then◌else◌, inl, inr, Bool-cases, ge→ltb,
}
use skaus.Prelude.Bytes.{Bytes, concat, sum}
use skaus.Notes.Encryption.{Primitives}
use skaus.Wallet.Scan.{scan_deposits_on_chain}
use skaus.Names.Registration.{RegisterBody}
use skaus.Deposit.Tiers.{
  Token, Split, exact, inexact, tiers_of, min_deposit, split_into_tiers, deposits, plan_deposit,
}
use skaus.Deposit.Execution.{Draw, Payer, DepositRun, executed}
use skaus.Deposit.Execution.Total.{amounts, found_amounts, accounts, IsSound, execute_deposit-found}
use skaus.Deposit.Tiers.Greedy.{plan_deposit-exact}
use skaus.Web.Keys.{KeyPrimitives, public_text}
use skaus.Web.Onboarding.{Onboarding, Host, handle_confirm_and_register}
use skaus.Web.Login.{has_key, derive_scan_key}
use skaus.Web.Login.Agreement.{register-scan_pubkey}
use skaus.Web.Payments.{
  MetaAddress, StealthMetaAddress, keys_of_name, is_mock_pubkey, decode_pubkey, recipient_of, done,
  post_from, after_deposit, pay_keys, pay_recipient, pay_split, slug_page,
}

-- An amount that is executed was split exactly.
planned-exact :
    (amount : ℕ) (token : Token) (o : Option Split)
    → split_into_tiers amount (tiers_of token) ≡ o
    → ltb amount (min_deposit token) ≡ false
    → (e : List ℕ) × (plan_deposit amount token ≡ some (deposits e))
    → (e : List ℕ) × (o ≡ some (exact e))
unfolding plan_deposit
planned-exact amount token none s b (e, h) = let f = rw (b, s) at h in cc
planned-exact amount token (some (inexact r)) s b (e, h) = let f = rw (b, s) at h in cc
planned-exact amount token (some (exact ds)) s b (e, h) = (ds, refl)

module _ {Number : Type 0} (units : Token → ℕ → Number) (p : Primitives) (poseidon : List ℕ → ℕ)
    (payer : Payer) (draw : ℕ → Draw) (base58 : String → Option Bytes) (k : KeyPrimitives)
    (same_curve : (x : Bytes) → k.public_key x ≡ p.public_key x)
    (decodes : (x : Bytes) → base58 (public_text k x) ≡ some (k.public_key x)) where
  decode_pubkey-public_text :
      (s : Bytes)
      → length (p.public_key s) ≡ 32
      → decode_pubkey base58 (public_text k s) ≡ some (p.public_key s)
  unfolding decode_pubkey
  decode_pubkey-public_text s size =
      let decoded : base58 (public_text k s) ≡ some (p.public_key s) =
        decodes s ∙ ap some (same_curve s) in
      rw (decoded, decode_pubkey, size) refl

  -- A name with the text of the key is paid at the key.
  recipient_of-public_text :
      (s spend : Bytes) (meta : MetaAddress)
      → length (p.public_key s) ≡ 32
      → meta.scan_pubkey ≡ public_text k s
      → (is_mock_pubkey meta.scan_pubkey || is_mock_pubkey meta.spend_pubkey) ≡ false
      → decode_pubkey base58 meta.spend_pubkey ≡ some spend
      → (keys : StealthMetaAddress) × (recipient_of base58 (some meta) ≡ keys_of_name keys)
        × (keys.scan_pubkey ≡ p.public_key s)
  unfolding recipient_of
  recipient_of-public_text s spend meta size text real other =
      let scan : decode_pubkey base58 meta.scan_pubkey ≡ some (p.public_key s) =
        ap (decode_pubkey base58) text ∙ decode_pubkey-public_text s size in
      (
        record {
          scan_pubkey = p.public_key s;
          spend_pubkey = spend;
          version = if meta.version == 0 then 1 else meta.version;
        },
        rw (real, scan, other) refl,
        refl,
      )

  after_deposit-made :
      (wallet : String) (amount : ℕ) (token : Token) (run : DepositRun)
      → let page =
          after_deposit units p poseidon payer draw base58
            (post_from (some wallet))
            amount
            token
            (some (executed run)) in
        (page.made ≡ run.made) × (page.status ≡ done → run.complete ≡ true)
  unfolding after_deposit
  after_deposit-made wallet amount token run = elim (Bool-cases run.complete) [
    | inl e ↦ rw e (refl, λ d. refl)
    | inr e ↦ rw e (refl, λ d. cc)
  ]

  module _ (h : Host) (o : Onboarding) (s : Bytes) (disc pool tail : Bytes) (place : ℕ → ℕ × ℕ)
      (hex : Bytes → String) (includes_so : String → Bool)
      (sound : IsSound p poseidon payer s draw disc pool tail place) where
    -- The curve of the keys is that of the notes, and their texts in base 58 are decoded; the conditions on the
    -- libraries and the drawn values hold for the key that the dashboard derives from the PIN of the
    -- onboarding, which posted a body. If the name's record has the scan key of that body, and keys
    -- that are no placeholders and can be decoded, and the amount is a positive multiple of the
    -- token's smallest tier: the scan of the dashboard with that key finds the amounts of all deposits that the
    -- page of a link made, also if it ended in an error, and if the page ends as done they add up to the
    -- amount.
    pub slug_page-found :
        (wallet : String) (body : RegisterBody) (meta : MetaAddress) (spend : Bytes) (token : Token)
        (amount : ℕ)
        → derive_scan_key k h none (concat o.pin_cells) ≡ has_key s
        → (handle_confirm_and_register k h o).1 ≡ some body
        → meta.scan_pubkey ≡ body.scan_pubkey
        → (is_mock_pubkey meta.scan_pubkey || is_mock_pubkey meta.spend_pubkey) ≡ false
        → decode_pubkey base58 meta.spend_pubkey ≡ some spend
        → min_deposit token ≤ amount
        → amount % min_deposit token ≡ 0
        → let page = slug_page units p poseidon payer draw base58 wallet amount token (some meta) in
          let found = found_amounts (
            scan_deposits_on_chain p s hex includes_so
              (accounts p poseidon payer s draw disc pool tail place 0 page.made)) in
          (found ≡ amounts page.made) × (page.status ≡ done → sum found ≡ amount)
    unfolding slug_page pay_split pay_recipient pay_keys
    slug_page-found wallet body meta spend token amount derived posted text real other h0 e0 =
        let key = text ∙ register-scan_pubkey k h o s body derived posted in
        let (keys, known, scan) =
          recipient_of-public_text s spend meta (sound.keys s) key real other in
        let (run, ran, found, total) =
          execute_deposit-found p poseidon payer s draw disc pool tail place hex includes_so sound
            token amount h0 e0 in
        let (ds, plan, total_ds, among, preview) = plan_deposit-exact token amount h0 e0 in
        let (tiers, split) =
          planned-exact amount token (split_into_tiers amount (tiers_of token)) refl
            (ge→ltb amount (min_deposit token) h0) (ds, plan) in
        let (made, finished) = after_deposit-made wallet amount token run in
        rw (split, known, scan, ran, made) (found, λ d. total (finished d))
