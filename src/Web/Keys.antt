-- ===== src/Web/Keys.antt =====
-- The keys that a wallet and a PIN make: packages/crypto/src/keys.ts, the derivation of
-- apps/web/src/lib/onboarding.ts, and the pages of apps/web that ask for the PIN: onboarding/page.tsx
-- registers the keys, login/page.tsx checks them, and dashboard/page.tsx scans with them. A cell of the
-- PIN is the list of its characters' codes. The hashes, the curve, base 58, the wallet and the gateway
-- are arguments.
pub mod Pin
use skaus.Prelude.{
  ℕ, ◌-◌, suc, zero, String, Bool, true, false, ◌&&◌, Option, none, some, List, [], ◌∷◌, ◌++◌, leb,
  ltb, ◌==◌, if◌then◌else◌, length, get_elem?, replicate,
}
use skaus.Prelude.Bytes.{Bytes, concat}
use skaus.Names.Validity.{utf8}

-- `hkdf(sha256, key, salt, info, 32)`
pub record KeyPrimitives : Type 0 where
  pub sha256 : Bytes → Bytes
  pub hkdf : Bytes → Bytes → Bytes → Bytes
  pub public_key : Bytes → Bytes
  pub base58 : Bytes → String

pub record KeyHierarchy : Type 0 where
  pub master_seed : Bytes
  pub scan_privkey : Bytes
  pub scan_pubkey : Bytes
  pub spend_privkey : Bytes
  pub spend_pubkey : Bytes
  pub view_key : Bytes
  pub encryption_privkey : Bytes
  pub encryption_pubkey : Bytes

-- A PIN as it is typed: `/^\d*$/`, `value.slice(-1)`.
unfoldable pub all_digits : Bytes → Bool
all_digits [] = true
all_digits (c ∷ cs) = (leb 48 c && leb c 57) && all_digits cs

unfoldable pub last_char : Bytes → Bytes
last_char [] = []
last_char (c ∷ []) = c ∷ []
last_char (c ∷ d ∷ cs) = last_char (d ∷ cs)

-- `next[index] = value`, on the cells that there are.
unfoldable pub set_cell : ℕ → Bytes → List Bytes → List Bytes
set_cell i value [] = []
set_cell zero value (x ∷ xs) = value ∷ xs
set_cell (suc i) value (x ∷ xs) = x ∷ set_cell i value xs

abbrev pub empty_pin : List Bytes
empty_pin = replicate 6 []

unfoldable pub handle_pin_input : ℕ → Bytes → List Bytes → List Bytes
handle_pin_input index value pin =
    if all_digits value then set_cell index (last_char value) pin else pin

abbrev pub is_empty_cell : Option Bytes → Bool
is_empty_cell none = true
is_empty_cell (some []) = true
is_empty_cell (some (c ∷ cs)) = false

-- The flag is whether the key is the backspace.
unfoldable pub handle_pin_key_down : ℕ → Bool → List Bytes → List Bytes
handle_pin_key_down index backspace pin =
    if backspace && is_empty_cell (get_elem? pin index) && ltb 0 index
    then set_cell (index - 1) [] pin
    else pin

unfoldable pub pin_complete : List Bytes → Bool
pin_complete pin = length (concat pin) == 6

-- What the wallet answers: whether a refusal is the user's is what its message says.
pub data SignReply : Type 0 where
  signed : Bytes → SignReply
  sign_error : Bool → String → SignReply

-- `SKAUS | Deterministic Meta Keys | Solana\nPIN: ${pin}\nWallet: ${wallet}`
unfoldable pub meta_keys_message : Bytes → String → Bytes
meta_keys_message pin wallet =
    utf8 "SKAUS | Deterministic Meta Keys | Solana"
    ++ (10 ∷ utf8 "PIN: " ++ (pin ++ (10 ∷ utf8 "Wallet: " ++ utf8 wallet)))

module _ (k : KeyPrimitives) where
  open k use {sha256, hkdf, public_key, base58}

  -- `deriveKeyHierarchy`
  unfoldable pub derive_key_hierarchy : Bytes → KeyHierarchy
  derive_key_hierarchy seed =
      let scan = hkdf seed (utf8 "skaus-v1") (utf8 "skaus-scan-key") in
      let spend = hkdf seed (utf8 "skaus-v1") (utf8 "skaus-spend-key") in
      let encryption = hkdf seed (utf8 "skaus-v1") (utf8 "skaus-encryption-key") in
      record {
        master_seed = seed;
        scan_privkey = scan;
        scan_pubkey = public_key scan;
        spend_privkey = spend;
        spend_pubkey = public_key spend;
        view_key = hkdf scan (utf8 "skaus-v1") (utf8 "skaus-view-key");
        encryption_privkey = encryption;
        encryption_pubkey = public_key encryption;
      }

  -- `deriveKeysFromPinAndSignature`: the scan key and the spend key.
  unfoldable pub derive_keys : Bytes → Bytes → Bytes × Bytes
  derive_keys pin signature =
      let seed = sha256 (signature ++ pin) in
      (
        hkdf seed (utf8 "skaus-v1") (utf8 "skaus-scan-key"),
        hkdf seed (utf8 "skaus-v1") (utf8 "skaus-spend-key"),
      )

  abbrev pub public_text : Bytes → String
  public_text privkey = base58 (public_key privkey)
