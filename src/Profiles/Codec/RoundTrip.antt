-- ===== src/Profiles/Codec/RoundTrip.antt =====
-- A profile that is encoded is decoded to that profile.
use skaus.Prelude.{
  ℕ, ◌<◌, ◌^◌, ◌≡◌, refl, ap, ◌∙◌, true, false, Option, some, List, [], ◌∷◌, ◌++◌, map, ltb, length,
  drop, All, ge→ltb, arith, length-append, take-append, drop-append,
}
use skaus.Prelude.Bytes.{Bytes, slice}
use skaus.Profiles.Codec.{
  Money, to_cents, from_cents, PaymentTier, CompressedProfile, or_empty, tier_with,
  profile_discriminator, same_bytes, profile, to_serializable, from_serializable, encode_profile,
  decode_profile, SerializableProfile,
}

module _ (m : Money) where
  open m use {Number, over, number}

  -- The number that is nearest to an amount of whole cents.
  abbrev pub IsCents : Number → Type 0
  IsCents a = (cents : ℕ) × (cents < 2 ^ 50) × (a ≡ over (number cents) 100)

  -- The profile with its avatar written out.
  abbrev pub with_avatar : CompressedProfile Number → CompressedProfile Number
  with_avatar p = record p { avatar_uri = some (or_empty p.avatar_uri) }

module _ (m : Money)
    (exact : (cents : ℕ)
      → cents < 2 ^ 50
      → m.round (m.times (m.over (m.number cents) 100) 100) ≡ cents) where
  open m use {Number, over, number}

  from_cents-to_cents : (a : Number) → IsCents m a → from_cents m (to_cents m a) ≡ a
  unfolding from_cents to_cents
  from_cents-to_cents a (cents, small, e) = rw e (ap (λ c. over (number c) 100) (exact cents small))

  map-cents :
      (xs : List Number) → All (IsCents m) xs → map (from_cents m) (map (to_cents m) xs) ≡ xs
  map-cents [] h = refl
  map-cents (x ∷ xs) (e, h) = rw (from_cents-to_cents x e, map-cents xs h) refl

  map-tiers :
      (ts : List (PaymentTier Number))
      → All (λ t. IsCents m t.amount) ts
      → map (tier_with (from_cents m)) (map (tier_with (to_cents m)) ts) ≡ ts
  map-tiers [] h = refl
  map-tiers (t ∷ ts) (e, h) = rw (from_cents-to_cents t.amount e, map-tiers ts h) refl

  from_serializable-to_serializable :
      (p : CompressedProfile Number)
      → All (IsCents m) p.payment_config.suggested_amounts
      → All (λ t. IsCents m t.amount) p.tiers
      → from_serializable m (to_serializable m p) ≡ with_avatar m p
  unfolding from_serializable to_serializable
  from_serializable-to_serializable p h k =
      rw (map-cents p.payment_config.suggested_amounts h, map-tiers p.tiers k) refl

  module _ (serialize : SerializableProfile → Bytes)
      (deserialize : Bytes → Option SerializableProfile) where
    same_discriminator : same_bytes profile_discriminator profile_discriminator ≡ true
    unfolding same_bytes
    same_discriminator = refl

    decode_profile-reads :
        (bytes body : Bytes) (s : SerializableProfile)
        → ltb (length bytes) 8 ≡ false
        → slice 0 8 bytes ≡ profile_discriminator
        → drop 8 bytes ≡ body
        → deserialize body ≡ some s
        → decode_profile m deserialize bytes ≡ profile (from_serializable m s)
    unfolding decode_profile
    decode_profile-reads bytes body s long disc rest back =
        rw (long, disc, same_discriminator, rest, back) refl

    -- If Borsh reads back what it wrote for this profile, the amounts of the profile are the numbers
    -- nearest to amounts of less than 2 to the 50 whole cents, and a hundred times such a number is
    -- rounded to its cents: the profile that was encoded is decoded to itself, with an empty URI for an
    -- avatar that was left out.
    pub decode_profile-encode_profile :
        (p : CompressedProfile Number)
        → deserialize (serialize (to_serializable m p)) ≡ some (to_serializable m p)
        → All (IsCents m) p.payment_config.suggested_amounts
        → All (λ t. IsCents m t.amount) p.tiers
        → decode_profile m deserialize (encode_profile m serialize p) ≡ profile (with_avatar m p)
    unfolding encode_profile
    decode_profile-encode_profile p back h k =
        let body = serialize (to_serializable m p) in
        let whole = profile_discriminator ++ body in
        decode_profile-reads whole body (to_serializable m p)
          (ge→ltb (length whole) 8 (omega (arith, length-append profile_discriminator body)))
          (take-append 8 profile_discriminator body refl)
          (drop-append 8 profile_discriminator body refl) back
        ∙ ap profile (from_serializable-to_serializable p h k)
