-- ===== src/Profiles/Routes/Tests.antt =====
-- A run of the handlers of profiles at a concrete profile.
use skaus.Prelude.{ℕ, ◌+◌, ◌≡◌, refl, true, false, none, some, List, [], ◌∷◌, ◌++◌, replicate}
use skaus.Names.Hash.{hash_name}
use skaus.Profiles.Codec.{or_empty}
use skaus.Profiles.Tests.{ada, profiles, address}
use skaus.Profiles.Store.{
  ProfileRow, Light, UpsertResult, upserted_row, upsert_result, compress_profile, compression_of,
  upsert_profile, mark_profile_on_chain, update_profile_data,
}
use skaus.Profiles.Routes.{
  ProfileHost, UpdateTx, put_done, linked, confirmed, update_keys, build_update_profile_tx,
  payer_or, link_reply, name_hash_of_row, link_with, link_row, put_result, put_checked, put_decoded,
  put_profile, link_to_chain, confirm_result, confirm_on_chain,
}
use skaus.Profiles.Routes.Confirmed.{IsConfirmed, confirm_on_chain-put}

abbrev host : ProfileHost
host = record {
  lower = λ name. name;
  public_key = λ text. some (text, 1 ∷ []);
  base58 = λ text. none;
  hex = λ text. replicate 32 7;
  is_hash = λ text. false;
  poseidon = λ xs. 5;
  program_address = λ seeds. 9 ∷ [];
  discriminator = replicate 8 1;
  system_program = 0 ∷ [];
  relayer = none;
  blockhash = true;
}

-- The compression is off, so that the hash is that of the authority.
abbrev off : Light ℕ
off = record {
  enabled = false;
  has_relayer = false;
  update = λ hash p. none;
  create = λ authority p. none;
  read = λ hash. none;
}

abbrev result : UpsertResult
result = record {
  compressed_hash = "local";
  compressed_on_chain = false;
  compression_tx_signature = none;
}

abbrev none_stored : List (ProfileRow ℕ)
none_stored = []

put_run :
    (put_profile host address profiles off 7 "ada" ada "owner" none_stored).0 ≡ put_done result
unfolding put_profile put_decoded put_checked put_result upsert_profile upserted_row upsert_result
    compression_of compress_profile
put_run = refl

abbrev tx : UpdateTx
tx = record {
  keys = update_keys host (hash_name host.lower host.poseidon "ada") (1 ∷ []);
  bytes = replicate 8 1 ++ 1 ∷ replicate 32 7;
  fee_payer = 1 ∷ [];
}

link_run :
    link_to_chain host address profiles "ada" "owner"
      (put_profile host address profiles off 7 "ada" ada "owner" none_stored).1
    ≡ linked tx "local"
unfolding put_profile put_decoded put_checked put_result upsert_profile upserted_row upsert_result
    compression_of compress_profile link_to_chain link_row link_with link_reply name_hash_of_row
    build_update_profile_tx update_profile_data payer_or
link_run = refl

confirm_run :
    (confirm_on_chain host address profiles "ada" "local" "no signature"
      (put_profile host address profiles off 7 "ada" ada "owner" none_stored).1).0
    ≡ confirmed
unfolding put_profile put_decoded put_checked put_result upsert_profile upserted_row upsert_result
    compression_of compress_profile confirm_on_chain confirm_result mark_profile_on_chain
confirm_run = refl

confirm_on_chain-put_example :
    let put = put_profile host address profiles off 7 "ada" ada "owner" none_stored in
    let confirmation = confirm_on_chain host address profiles "ada" "local" "no signature" put.1 in
    ("local" ≡ result.compressed_hash)
    × IsConfirmed host address profiles "ada" "local"
        (record ada {
          version = ada.version + 1;
          updated_at = 7;
          avatar_uri = some (or_empty ada.avatar_uri);
        })
        confirmation.1
confirm_on_chain-put_example =
    confirm_on_chain-put host address profiles off 7 "ada" ada "owner" "owner" "local"
      "no signature" none_stored result tx put_run refl link_run confirm_run
