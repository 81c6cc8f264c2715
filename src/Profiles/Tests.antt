-- ===== src/Profiles/Tests.antt =====
-- Runs of the profiles at concrete inputs, with whole numbers of cents as amounts.
use skaus.Prelude.{
  ℕ, ◌≡◌, refl, String, Bool, true, false, Option, none, some, List, [], ◌∷◌, ltb, leb, ◌+◌, ◌*◌,
  ◌/◌, ◌<◌, ◌^◌, arith, replicate, All, str_eq, if◌then◌else◌,
}
use skaus.Prelude.Bytes.{Bytes}
use skaus.Withdraw.Hex.{byte_digits}
use skaus.Requests.Row.{Numbers}
use skaus.Profiles.Codec.{
  Money, to_cents, CompressedProfile, SerializableProfile, profile, to_serializable, encode_profile,
  decode_profile,
}
use skaus.Profiles.Codec.RoundTrip.{with_avatar, decode_profile-encode_profile}
use skaus.Profiles.Store.{
  ProfileRow, ProfileTable, Light, UpsertResult, or_nothing, hash_of_row, on_chain_of_row,
  upsert_profile, get_profile_by_username, upserted_row, upsert_result, compression_of, hash_of_row,
}
use skaus.Profiles.Store.Found.{next_row, upsert_profile-found}
use skaus.Profiles.Store.Stuck.{puts, puts-off_chain}
use skaus.Profiles.Gated.{
  Cipher, encrypt_uri, decrypt_uri, GatedContent, GatedProfile, GatedPayment, AccessRequest,
  unlocked, access_gated, hex_char, hex_text, hex_value, read_hex_text, split_dots, behind_prefix,
  decrypt_parts, in_line, strip_prefix, tier_id_of, find_content, tier_amount, required_amount,
  challenge, judge_payer, judge_payment, judge_uri, judge_content, judge_profile,
}
use skaus.Profiles.Gated.Access.{IsGranted, access_gated-IsGranted}

-- Amounts in hundredths.
abbrev pub cents : Money
cents = record { Number = ℕ; times = ◌*◌; over = ◌/◌; round = λ n. n / 100; number = λ n. n * 100 }

abbrev pub ada : CompressedProfile ℕ
ada = record {
  display_name = "Ada";
  bio = "";
  avatar_uri = none;
  links = record { platform = "web"; url = "ada.org"; verified = true } ∷ [];
  payment_config = record {
    accepted_tokens = "USDC" ∷ [];
    suggested_amounts = 500 ∷ 1000 ∷ [];
    custom_amount_enabled = true;
    thank_you_message = "";
  };
  tiers = [];
  gated_content = [];
  version = 1;
  updated_at = 1_700_000_000_000;
}

abbrev serialize : SerializableProfile → Bytes
serialize s = 1 ∷ []

abbrev deserialize : Bytes → Option SerializableProfile
deserialize bytes = some (record {
  display_name = "Ada";
  bio = "";
  avatar_uri = "";
  links = record { platform = "web"; url = "ada.org"; verified = true } ∷ [];
  payment_config = record {
    accepted_tokens = "USDC" ∷ [];
    suggested_amounts = 500 ∷ 1000 ∷ [];
    custom_amount_enabled = true;
    thank_you_message = "";
  };
  tiers = [];
  gated_content = [];
  version = 1;
  updated_at = 1_700_000_000_000;
})

written : deserialize (serialize (to_serializable cents ada)) ≡ some (to_serializable cents ada)
unfolding to_serializable to_cents
written = refl

cents_exact :
    (c : ℕ) → c < 2 ^ 50 → cents.round (cents.times (cents.over (cents.number c) 100) 100) ≡ c
cents_exact c small = omega arith

decode_profile-encode_profile_example :
    decode_profile cents deserialize (encode_profile cents serialize ada)
    ≡ profile (with_avatar cents ada)
decode_profile-encode_profile_example =
    decode_profile-encode_profile cents cents_exact serialize deserialize ada written
      ((500, omega arith, refl), ((1000, omega arith, refl), tt)) tt

-- The table as the history of its rows.
abbrev pub lookup : String → List (ProfileRow ℕ) → Option (ProfileRow ℕ)
lookup k [] = none
lookup k (r ∷ rs) = if str_eq r.username k then some r else lookup k rs

pub lookup-upsert :
    (r : ProfileRow ℕ) (k : String) (t t' : List (ProfileRow ℕ))
    → some (r ∷ t) ≡ some t'
    → lookup k t' ≡ (if str_eq r.username k then some r else lookup k t)
lookup-upsert r k t t' h = let same : r ∷ t ≡ t' = cc in rw (← same) refl

abbrev pub profiles : ProfileTable ℕ
profiles = record {
  Table = List (ProfileRow ℕ);
  find = lookup;
  find_by_hash = λ hash t. none;
  upsert = λ r t. some (r ∷ t);
  find-upsert = lookup-upsert;
}

abbrev pub address : String → String
address authority = "local"

abbrev pub lower : String → String
lower name = name

-- There is no account to update, but one could be created.
abbrev empty_chain : Light ℕ
empty_chain = record {
  enabled = true;
  has_relayer = true;
  update = λ hash p. none;
  create = λ authority p. some "sig";
  read = λ hash. none;
}

abbrev result : UpsertResult
result = record {
  compressed_hash = "";
  compressed_on_chain = false;
  compression_tx_signature = none;
}

abbrev row : ProfileRow ℕ
row = record {
  username = "ada";
  name_hash = none;
  compressed_hash = none;
  compressed_on_chain = false;
  stored = record ada { avatar_uri = some "" };
}

upserted :
    upsert_profile address profiles lower empty_chain "ada" ada none none []
    ≡ some (result, row ∷ [])
unfolding upsert_profile compression_of upserted_row upsert_result
upserted = refl

upsert_profile-found_example :
    (get_profile_by_username address profiles lower "ada" (row ∷ [])
      ≡ some (record ada { avatar_uri = some "" }))
    × (result.compressed_hash ≡ or_nothing (hash_of_row (lookup "ada" (row ∷ []))))
    × (result.compressed_on_chain ≡ on_chain_of_row (lookup "ada" (row ∷ [])))
    × (lookup "bob" (row ∷ []) ≡ (
        if str_eq "ada" "bob"
        then some (next_row address profiles lower empty_chain "ada" ada none none [])
        else none))
upsert_profile-found_example =
    upsert_profile-found address profiles lower empty_chain "ada" ada none none [] result (row ∷ [])
      "bob" upserted

-- What a creation on the chain that failed left behind.
abbrev failed_row : ProfileRow ℕ
failed_row = record row { compressed_hash = some "local" }

puts-off_chain_example :
    All
      (λ r. r.compressed_on_chain ≡ false)
      (puts address profiles lower "ada" "wallet"
        ((empty_chain, ada) ∷ (empty_chain, ada) ∷ [])
        (failed_row ∷ []))
puts-off_chain_example =
    puts-off_chain address profiles lower "ada" "wallet"
      ((empty_chain, ada) ∷ (empty_chain, ada) ∷ []) (failed_row ∷ []) refl (refl, (refl, tt)) refl

abbrev hash : Bytes
hash = replicate 32 7

abbrev cipher : Cipher
cipher = record { seal = λ iv plain. (plain, replicate 16 0); unseal = λ iv ct tag. some ct }

abbrev whole : Numbers
whole = record { Number = ℕ; nought = 0; add = ◌+◌; less = ltb; at_most = leb; is_nan = λ a. false }

abbrev content : GatedContent
content = record {
  content_id = "c";
  encrypted_uri = some (encrypt_uri cipher (1 ∷ []) (104 ∷ []));
  access_condition = some "tier:gold";
}

abbrev creator : GatedProfile whole
creator = record { tiers = record { id = "gold"; amount = 50 } ∷ []; gated_content = content ∷ [] }

abbrev payment : GatedPayment whole
payment = record { username = "ada"; amount = 50; payer_address = some "wallet" }

abbrev request : AccessRequest whole
request = record {
  username = "ada";
  content_id = "c";
  tx_signature = "tx";
  requester_address = "wallet";
  challenge_signature = "signed";
}

abbrev verify : String → String → String → Bool
verify address message signature = str_eq message "skaus-unlock-v1:c:tx"

access_gated_run :
    access_gated whole cipher lower verify request (some creator) (some payment)
    ≡ unlocked (104 ∷ [])
unfolding access_gated judge_profile judge_content judge_uri judge_payment judge_payer challenge
    find_content required_amount tier_id_of strip_prefix in_line tier_amount encrypt_uri decrypt_uri
    hex_char hex_text hex_value read_hex_text split_dots behind_prefix decrypt_parts byte_digits
access_gated_run = refl

access_gated-IsGranted_example :
    IsGranted whole cipher lower verify request (some creator) (some payment) (104 ∷ [])
access_gated-IsGranted_example =
    access_gated-IsGranted whole cipher lower verify request (some creator) (some payment)
      (104 ∷ []) access_gated_run
