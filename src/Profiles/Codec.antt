-- ===== src/Profiles/Codec.antt =====
-- packages/sdk/src/compression/types.ts. The operations on floating-point numbers and the Borsh
-- library are parameters.
pub mod RoundTrip
use skaus.Prelude.{
  ℕ, String, Bool, Option, none, some, List, [], ◌∷◌, ◌++◌, map, ltb, ◌==◌, ◌&&◌, true, false,
  if◌then◌else◌, length, take, drop,
}
use skaus.Prelude.Bytes.{Bytes, slice}

-- The numbers of the language, of amounts that are not negative: `a * n`, `a / n`, `Math.round`, and
-- the conversion from a `BigInt`, each rounded as that language does.
pub record Money : Type 1 where
  pub Number : Type 0
  pub times : Number → ℕ → Number
  pub over : Number → ℕ → Number
  pub round : Number → ℕ
  pub number : ℕ → Number

pub record ProfileLink : Type 0 where
  pub platform : String
  pub url : String
  pub verified : Bool

-- `N` is the type of amounts: numbers, or whole cents in what is written.
pub record PaymentConfig (N : Type 0) : Type 0 where
  pub accepted_tokens : List String
  pub suggested_amounts : List N
  pub custom_amount_enabled : Bool
  pub thank_you_message : String

pub record PaymentTier (N : Type 0) : Type 0 where
  pub id : String
  pub name : String
  pub amount : N
  pub currency : String
  pub benefits : List String
  pub gate_type : String

pub record GatedContentPointer : Type 0 where
  pub content_id : String
  pub encrypted_uri : String
  pub access_condition : String
  pub preview_text : String

-- `A` is the type of the avatar's URI, which a request may leave out.
pub record ProfileOf (N A : Type 0) : Type 0 where
  pub display_name : String
  pub bio : String
  pub avatar_uri : A
  pub links : List ProfileLink
  pub payment_config : PaymentConfig N
  pub tiers : List (PaymentTier N)
  pub gated_content : List GatedContentPointer
  pub version : ℕ
  pub updated_at : ℕ

abbrev pub SerializableProfile : Type 0
SerializableProfile = ProfileOf ℕ String

abbrev pub CompressedProfile : Type 0 → Type 0
CompressedProfile N = ProfileOf N (Option String)

abbrev pub or_empty : Option String → String
or_empty none = ""
or_empty (some uri) = uri

abbrev pub tier_with : {N M : Type 0} → (N → M) → PaymentTier N → PaymentTier M
tier_with f t = record {
  id = t.id;
  name = t.name;
  amount = f t.amount;
  currency = t.currency;
  benefits = t.benefits;
  gate_type = t.gate_type;
}

abbrev pub config_with : {N M : Type 0} → (N → M) → PaymentConfig N → PaymentConfig M
config_with f c = record {
  accepted_tokens = c.accepted_tokens;
  suggested_amounts = map f c.suggested_amounts;
  custom_amount_enabled = c.custom_amount_enabled;
  thank_you_message = c.thank_you_message;
}

abbrev pub profile_discriminator : Bytes
profile_discriminator = 112 ∷ 114 ∷ 111 ∷ 102 ∷ 105 ∷ 108 ∷ 101 ∷ 0 ∷ []

-- `disc.equals(_)`
unfoldable pub same_bytes : Bytes → Bytes → Bool
same_bytes [] [] = true
same_bytes [] (b ∷ bs) = false
same_bytes (a ∷ as') [] = false
same_bytes (a ∷ as') (b ∷ bs) = a == b && same_bytes as' bs

pub data DecodedProfile (N : Type 0) : Type 0 where
  too_short wrong_discriminator bad_body : DecodedProfile N
  profile : CompressedProfile N → DecodedProfile N

module _ (m : Money) where
  open m use {Number, times, over, round, number}

  unfoldable pub to_cents : Number → ℕ
  to_cents amount = round (times amount 100)

  unfoldable pub from_cents : ℕ → Number
  from_cents cents = over (number cents) 100

  unfoldable pub to_serializable : CompressedProfile Number → SerializableProfile
  to_serializable p = record {
    display_name = p.display_name;
    bio = p.bio;
    avatar_uri = or_empty p.avatar_uri;
    links = p.links;
    payment_config = config_with to_cents p.payment_config;
    tiers = map (tier_with to_cents) p.tiers;
    gated_content = p.gated_content;
    version = p.version;
    updated_at = p.updated_at;
  }

  unfoldable pub from_serializable : SerializableProfile → CompressedProfile Number
  from_serializable s = record {
    display_name = s.display_name;
    bio = s.bio;
    avatar_uri = some s.avatar_uri;
    links = s.links;
    payment_config = config_with from_cents s.payment_config;
    tiers = map (tier_with from_cents) s.tiers;
    gated_content = s.gated_content;
    version = s.version;
    updated_at = s.updated_at;
  }

  unfoldable pub encode_profile : (SerializableProfile → Bytes) → CompressedProfile Number → Bytes
  encode_profile serialize p = profile_discriminator ++ serialize (to_serializable p)

  unfoldable pub decode_profile :
      (Bytes → Option SerializableProfile) → Bytes → DecodedProfile Number
  decode_profile deserialize bytes =
      if ltb (length bytes) 8
      then too_short
      else if same_bytes (slice 0 8 bytes) profile_discriminator
      then elim (deserialize (drop 8 bytes)) [
        | none ↦ bad_body
        | some s ↦ profile (from_serializable s)
      ]
      else wrong_discriminator
