-- ===== src/Web/Usernames/Available.antt =====
-- A name that the page calls free, at the gateway.
use Prim.Native.Char.{code}
use skaus.Prelude.{
  ℕ, ◌≡◌, ◌≢◌, refl, String, true, false, ◌||◌, inl, inr, Option, none, some, [], ◌∷◌, str_eq,
  Bool-cases, Option-cases, arith,
}
use skaus.Names.Validity.{is_name_byte, all_name_chars, has_bad_prefix, is_bad_first, is_valid_name}
use skaus.Names.Resolver.{Network, resolve_username}
use skaus.Prelude.Bytes.{Bytes}
use skaus.Names.Hash.{hash_name}
use skaus.Names.Registration.{
  fee_treasury_of, config_seed, RegisterBody, Setting, Writes, RegisterReply, invalid_name, taken,
  register, build_registration,
}
use skaus.Names.Routes.{AvailableReply, invalid_format, available, get_available}
use skaus.Web.Usernames.{
  is_username_byte, all_username_chars, starts_underscore, is_valid_username, is_valid, Answer,
  other_status, flagged, check_username_availability, status_of_flag, free_name, check_availability,
}

is_username_byte→is_name_byte : (n : ℕ) → is_username_byte n ≡ true → is_name_byte n ≡ true
unfolding is_username_byte is_name_byte
is_username_byte→is_name_byte n h = ground arith

all_username_chars→all_name_chars :
    (s : String) → all_username_chars s ≡ true → all_name_chars s ≡ true
unfolding all_username_chars all_name_chars
all_username_chars→all_name_chars String.[] h = refl
all_username_chars→all_name_chars (String.◌∷◌ c s) h =
    ground (arith, is_username_byte→is_name_byte (code c), all_username_chars→all_name_chars s)

has_bad_prefix-username :
    (s : String)
    → all_username_chars s ≡ true
    → starts_underscore s ≡ false
    → has_bad_prefix s ≡ false
unfolding all_username_chars starts_underscore has_bad_prefix is_bad_first is_username_byte
has_bad_prefix-username String.[] h u = refl
has_bad_prefix-username (String.◌∷◌ c s) h u = ground arith

-- The gateway's check passes every name that the page's passes.
is_valid_username→is_valid_name :
    (s : String) → is_valid (is_valid_username s) ≡ true → is_valid_name s ≡ true
unfolding is_valid_username is_valid_name
is_valid_username→is_valid_name s h =
    ground (arith, all_username_chars→all_name_chars s, has_bad_prefix-username s)

-- What the browser sees of the route's reply: 400 for a format, and else the flag.
abbrev pub answer_of : AvailableReply → Answer
answer_of invalid_format = other_status
answer_of (available free) = flagged (some free)

module _ {Db : Type 0} (net : Network) (env : Setting) (w : Writes Db) where
  free-resolved :
      (name : String) (second : Answer)
      → check_availability (answer_of (get_available net name)) second name ≡ free_name
      → (is_valid_name name ≡ true) × (resolve_username net name ≡ none)
  unfolding check_availability get_available check_username_availability status_of_flag
  free-resolved name second h = elim (Bool-cases (is_valid (is_valid_username name))) [
    | inr bad ↦ let f = rw bad at h in cc
    | inl good ↦
        let passes = is_valid_username→is_valid_name name good in
        elim (Option-cases (resolve_username net name)) [
          | inl e ↦ (passes, e)
          | inr (r, e) ↦ let f = rw (good, get_available, passes, e) at h in cc
        ]
  ]

  abbrev Passes : RegisterReply → Type 0
  Passes reply = (reply ≢ invalid_name) × (reply ≢ taken)

  build_registration-Passes :
      (body : RegisterBody) (hash : Bytes) (a s d : Option Bytes)
      → Passes (build_registration net env body hash a s d)
  unfolding build_registration
  build_registration-Passes body hash none s d = (λ e. cc, λ e. cc)
  build_registration-Passes body hash (some a) none d = (λ e. cc, λ e. cc)
  build_registration-Passes body hash (some a) (some s) none = (λ e. cc, λ e. cc)
  build_registration-Passes body hash (some a) (some s) (some d) =
      elim (Option-cases
        (fee_treasury_of a (net.get_account (net.program_address (config_seed ∷ []))))) [
          | inl e ↦ rw (e, build_registration) (λ f. cc, λ f. cc)
          | inr (t, e) ↦ elim (Bool-cases env.blockhash) [
            | inl b ↦ rw (e, build_registration, b) (λ f. cc, λ f. cc)
            | inr b ↦ rw (e, build_registration, b) (λ f. cc, λ f. cc)
          ]
        ]

  -- If the page calls a name free that the gateway was asked for, whatever a second query would answer,
  -- a registration of that name at the same state of the chain is not refused for its format, nor as
  -- taken.
  pub register-check_availability :
      (body : RegisterBody) (second : Answer) (db : Db)
      → check_availability (answer_of (get_available net body.username)) second body.username
        ≡ free_name
      → ((register net env w body db).0 ≢ invalid_name) × ((register net env w body db).0 ≢ taken)
  unfolding register
  register-check_availability body second db h =
      let (passes, free) = free-resolved body.username second h in
      elim (Bool-cases (
        str_eq body.username ""
        || str_eq body.authority ""
        || str_eq body.scan_pubkey ""
        || str_eq body.spend_pubkey "")) [
          | inl e ↦ rw e (λ f. cc, λ f. cc)
          | inr e ↦ elim (Option-cases net.poseidon) [
            | inl p ↦ rw (e, passes, register, free, p) (λ f. cc, λ f. cc)
            | inr (poseidon, p) ↦
                rw (e, passes, register, free, p)
                  (build_registration-Passes body (hash_name net.lower poseidon body.username)
                    (env.public_key body.authority) (env.decode body.scan_pubkey)
                    (env.decode body.spend_pubkey))
          ]
        ]
