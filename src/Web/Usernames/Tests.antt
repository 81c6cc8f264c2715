-- ===== src/Web/Usernames/Tests.antt =====
-- A run of the choice of a name at a concrete name.
use skaus.Prelude.{ℕ, ◌≡◌, ◌≢◌, refl, true, none, some, [], ◌∷◌}
use skaus.Names.Validity.{
  utf16_length, is_name_byte, all_name_chars, has_bad_prefix, is_bad_first, is_valid_name,
}
use skaus.Names.Resolver.{missing, Network, resolve_username, resolve_name_hash, resolve_account}
use skaus.Names.Registration.{RegisterBody, Setting, Writes, invalid_name, taken, register}
use skaus.Names.Routes.{get_available}
use skaus.Web.Usernames.{
  is_username_byte, all_username_chars, starts_underscore, ends_underscore, is_valid_username,
  unreachable, free_name, status_of_flag, check_username_availability, check_availability,
}
use skaus.Web.Usernames.Available.{answer_of, register-check_availability}

abbrev net : Network
net = record {
  lower = λ s. s;
  poseidon = some (λ xs. 5);
  base58 = λ bs. "text";
  program_address = λ seeds. 9 ∷ [];
  get_account = λ key. missing;
}

abbrev env : Setting
env = record {
  public_key = λ text. some (1 ∷ []);
  decode = λ text. some (2 ∷ []);
  relayer = none;
  blockhash = true;
  discriminator = 3 ∷ [];
  system_program = 4 ∷ [];
}

abbrev writes : Writes ℕ
writes = record { upsert_profile = λ a b db. some db; upsert_personal = λ a b db. some db }

abbrev body : RegisterBody
body = record { username = "ada"; authority = "a"; scan_pubkey = "s"; spend_pubkey = "d" }

free : check_availability (answer_of (get_available net "ada")) unreachable "ada" ≡ free_name
unfolding check_availability is_valid_username all_username_chars is_username_byte starts_underscore
    ends_underscore utf16_length get_available is_valid_name has_bad_prefix is_bad_first
    all_name_chars is_name_byte resolve_username resolve_name_hash resolve_account
    check_username_availability status_of_flag
free = refl

register-check_availability_example :
    ((register net env writes body 7).0 ≢ invalid_name)
    × ((register net env writes body 7).0 ≢ taken)
register-check_availability_example =
    register-check_availability net env writes body unreachable 7 free
