-- ===== src/Profiles/Gated/Access.antt =====
-- Whom the gated content is opened to.
use skaus.Prelude.{◌≡◌, refl, String, Bool, true, false, Option, none, some, str_eq, arith}
use skaus.Prelude.Bytes.{Bytes}
use skaus.Requests.Row.{Numbers}
use skaus.Profiles.Gated.{
  Cipher, decrypt_uri, GatedContent, GatedProfile, GatedPayment, find_content, required_amount,
  AccessRequest, AccessReply, unlocked, challenge, unlock_with, judge_payer, judge_payment,
  judge_uri, judge_content, judge_profile, access_gated,
}

module _ (n : Numbers) (cipher : Cipher) (lower : String → String)
    (verify : String → String → String → Bool) (q : AccessRequest n) where
  open n use {Number, less}

  abbrev is_unlocked : AccessReply n → Bool
  is_unlocked (unlocked plain) = true
  is_unlocked _ = false

  unlock_with-unlocked :
      (o : Option Bytes) (plain : Bytes)
      → unlock_with n cipher lower verify q o ≡ unlocked plain
      → o ≡ some plain
  unlock_with-unlocked none plain h = cc
  unlock_with-unlocked (some p) plain h = cc

  -- The payer is who asks, and has signed.
  pub record IsPayer (payer : Option String) (uri plain : Bytes) : Type 0 where
    pub address : String
    pub recorded : payer ≡ some address
    pub filled : str_eq address "" ≡ false
    pub same_address : str_eq (lower address) (lower q.requester_address) ≡ true
    pub signed :
        verify q.requester_address (challenge n cipher lower verify q) q.challenge_signature ≡ true
    pub decrypts : decrypt_uri cipher uri ≡ some plain

  judge_payer-IsPayer :
      (uri plain : Bytes) (payer : Option String)
      → judge_payer n cipher lower verify q uri payer ≡ unlocked plain
      → IsPayer payer uri plain
  unfolding judge_payer
  judge_payer-IsPayer uri plain none h = cc
  judge_payer-IsPayer uri plain (some address) h =
      let filled : str_eq address "" ≡ false = ground arith in
      let same : str_eq (lower address) (lower q.requester_address) ≡ true = ground arith in
      let signature : verify q.requester_address (challenge n cipher lower verify q)
            q.challenge_signature
          ≡ true =
        ground arith in
      let done : unlock_with n cipher lower verify q (decrypt_uri cipher uri) ≡ unlocked plain =
        ground arith in
      record {
        address = address;
        recorded = refl;
        filled = filled;
        same_address = same;
        signed = signature;
        decrypts = unlock_with-unlocked (decrypt_uri cipher uri) plain done;
      }

  -- The payment is the creator's, is enough, and its payer asks.
  pub record IsPayment (payment : Option (GatedPayment n)) (required : Number) (uri plain : Bytes)
      : Type 0 where
    pub paid : GatedPayment n
    pub found : payment ≡ some paid
    pub creator : str_eq (lower paid.username) (lower q.username) ≡ true
    pub enough : less paid.amount required ≡ false
    pub payer : IsPayer paid.payer_address uri plain

  judge_payment-IsPayment :
      (required : Number) (uri plain : Bytes) (payment : Option (GatedPayment n))
      → judge_payment n cipher lower verify q required uri payment ≡ unlocked plain
      → IsPayment payment required uri plain
  unfolding judge_payment
  judge_payment-IsPayment required uri plain none h = cc
  judge_payment-IsPayment required uri plain (some pay) h =
      let creator : str_eq (lower pay.username) (lower q.username) ≡ true = ground arith in
      let enough : less pay.amount required ≡ false = ground arith in
      let rest : judge_payer n cipher lower verify q uri pay.payer_address ≡ unlocked plain =
        ground arith in
      record {
        paid = pay;
        found = refl;
        creator = creator;
        enough = enough;
        payer = judge_payer-IsPayer uri plain pay.payer_address rest;
      }

  -- The content is the profile's, and the payment is enough for its tier.
  pub record IsGranted (profile : Option (GatedProfile n)) (payment : Option (GatedPayment n))
      (plain : Bytes) : Type 0 where
    pub owner : GatedProfile n
    pub content : GatedContent
    pub uri : Bytes
    pub has_profile : profile ≡ some owner
    pub has_content : find_content n q.content_id owner.gated_content ≡ some content
    pub has_uri : content.encrypted_uri ≡ some uri
    pub granted :
        IsPayment payment (required_amount n owner.tiers content.access_condition) uri plain

  judge_uri-sealed :
      (required : Number) (payment : Option (GatedPayment n)) (plain : Bytes) (o : Option Bytes)
      → judge_uri n cipher lower verify q required payment o ≡ unlocked plain
      → (uri : Bytes) × (o ≡ some uri) × IsPayment payment required uri plain
  unfolding judge_uri
  judge_uri-sealed required payment plain none h = cc
  judge_uri-sealed required payment plain (some uri) h =
      let rest : judge_payment n cipher lower verify q required uri payment ≡ unlocked plain =
        ground arith in
      (uri, refl, judge_payment-IsPayment required uri plain payment rest)

  judge_content-IsGranted :
      (p : GatedProfile n) (payment : Option (GatedPayment n)) (plain : Bytes)
      (o : Option GatedContent)
      → find_content n q.content_id p.gated_content ≡ o
      → judge_content n cipher lower verify q p.tiers payment o ≡ unlocked plain
      → IsGranted (some p) payment plain
  unfolding judge_content
  judge_content-IsGranted p payment plain none e h = cc
  judge_content-IsGranted p payment plain (some c) e h =
      let (uri, sealed, granted) =
        judge_uri-sealed (required_amount n p.tiers c.access_condition) payment plain
          c.encrypted_uri h in
      record {
        owner = p;
        content = c;
        uri = uri;
        has_profile = refl;
        has_content = e;
        has_uri = sealed;
        granted = granted;
      }

  judge_profile-IsGranted :
      (profile : Option (GatedProfile n)) (payment : Option (GatedPayment n)) (plain : Bytes)
      → judge_profile n cipher lower verify q payment profile ≡ unlocked plain
      → IsGranted profile payment plain
  unfolding judge_profile
  judge_profile-IsGranted none payment plain h = cc
  judge_profile-IsGranted (some p) payment plain h =
      judge_content-IsGranted p payment plain (find_content n q.content_id p.gated_content) refl h

  -- Gated content is opened only if the profile has it sealed, the payment of the signature that was
  -- sent belongs to the creator's name, is not less than the amount of the content's tier, has an
  -- address of its payer that is not empty and is the requester's but for case, the requester's address has signed the
  -- challenge, and the URI that is sent is what the sealed text decrypts to.
  pub access_gated-IsGranted :
      (profile : Option (GatedProfile n)) (payment : Option (GatedPayment n)) (plain : Bytes)
      → access_gated n cipher lower verify q profile payment ≡ unlocked plain
      → IsGranted profile payment plain
  unfolding access_gated
  access_gated-IsGranted profile payment plain h =
      judge_profile-IsGranted profile payment plain (ground arith)
