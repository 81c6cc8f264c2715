-- ===== src/Profiles/Store/Found.antt =====
-- What a profile's row holds behind the writes of its profile.
use skaus.Prelude.{
  ◌≡◌, refl, ap, ◌∙◌, sym, String, inl, inr, Option, none, some, if◌then◌else◌, str_eq,
  Option-cases, some_unique,
}
use text.Mathlib.TextPositions.{eq_refl}
use skaus.Profiles.Codec.{CompressedProfile, or_empty}
use skaus.Profiles.Store.{
  ProfileRow, ProfileTable, Light, ProfileCompressionResult, UpsertResult, or_nothing, hash_of_row,
  on_chain_of_row, upserted_row, upsert_result, compression_of, upsert_profile,
  get_profile_by_username,
}

module _ {N : Type 0} (address : String → String) (m : ProfileTable N)
    (lower : String → String) where
  open m use {Table, find, upsert, find-upsert}

  module _ (light : Light N) (username : String) (p : CompressedProfile N)
      (name_hash authority : Option String) (t : Table) where
    -- What was there, what the compression gave, and the row that is written.
    abbrev pub existing : Option (ProfileRow N)
    existing = find (lower username) t

    abbrev pub compression : Option ProfileCompressionResult
    compression = compression_of address m lower light username p authority t

    abbrev pub next_row : ProfileRow N
    next_row = upserted_row (lower username) p name_hash existing compression

    upsert_profile-none :
        upsert next_row t ≡ none
        → upsert_profile address m lower light username p name_hash authority t ≡ none
    unfolding upsert_profile
    upsert_profile-none e = rw (upsert_profile, e) refl

    upsert_profile-some :
        (t' : Table)
        → upsert next_row t ≡ some t'
        → upsert_profile address m lower light username p name_hash authority t
          ≡ some (upsert_result existing compression, t')
    unfolding upsert_profile
    upsert_profile-some t' e = rw (upsert_profile, e) refl

    pub upsert_profile-row :
        (r : UpsertResult) (t' : Table)
        → upsert_profile address m lower light username p name_hash authority t ≡ some (r, t')
        → (r ≡ upsert_result existing compression) × (upsert next_row t ≡ some t')
    upsert_profile-row r t' h = elim (Option-cases (upsert next_row t)) [
      | inl e ↦ let gone = upsert_profile-none e in cc
      | inr (after, e) ↦
          let pair = some_unique h (upsert_profile-some after e) in
          (ap (λ x. x.0) pair, e ∙ ap (λ x. some x.1) (sym pair))
    ]

    -- The fields of the written row.
    pub username-upserted_row :
        (c : Option ProfileCompressionResult)
        → (upserted_row (lower username) p name_hash existing c).username ≡ lower username
    unfolding upserted_row
    username-upserted_row none = refl
    username-upserted_row (some c) = refl

    pub stored-upserted_row :
        (c : Option ProfileCompressionResult)
        → (upserted_row (lower username) p name_hash existing c).stored
          ≡ record p { avatar_uri = some (or_empty p.avatar_uri) }
    unfolding upserted_row
    stored-upserted_row none = refl
    stored-upserted_row (some c) = refl

    hash-upserted_row :
        (c : Option ProfileCompressionResult)
        → (upsert_result existing c).compressed_hash
          ≡ or_nothing (upserted_row (lower username) p name_hash existing c).compressed_hash
    unfolding upserted_row upsert_result
    hash-upserted_row none = refl
    hash-upserted_row (some c) = refl

    flag-upserted_row :
        (c : Option ProfileCompressionResult)
        → (upsert_result existing c).compressed_on_chain
          ≡ (upserted_row (lower username) p name_hash existing c).compressed_on_chain
    unfolding upserted_row upsert_result
    flag-upserted_row none = refl
    flag-upserted_row (some c) = refl

    pub find-row :
        (t' : Table) → upsert next_row t ≡ some t' → find (lower username) t' ≡ some next_row
    find-row t' row =
        find-upsert next_row (lower username) t t' row
        ∙ rw (username-upserted_row compression, eq_refl (lower username)) refl

    -- An upsert of a profile that returns leaves it under the lower case of its name, with an empty URI
    -- for an avatar that was left out, returns the hash and the flag of the row it leaves, and changes
    -- no row but that one.
    pub upsert_profile-found :
        (r : UpsertResult) (t' : Table) (k : String)
        → upsert_profile address m lower light username p name_hash authority t ≡ some (r, t')
        → let behind = find (lower username) t' in
          (get_profile_by_username address m lower username t'
            ≡ some (record p { avatar_uri = some (or_empty p.avatar_uri) }))
          × (r.compressed_hash ≡ or_nothing (hash_of_row behind))
          × (r.compressed_on_chain ≡ on_chain_of_row behind)
          × (find k t' ≡ (if str_eq (lower username) k then some next_row else find k t))
    unfolding get_profile_by_username
    upsert_profile-found r t' k h =
        let (result, row) = upsert_profile-row r t' h in
        let seen = find-row t' row in
        (
          rw (get_profile_by_username, seen) (ap some (stored-upserted_row compression)),
          rw (result, seen) (hash-upserted_row compression),
          rw (result, seen) (flag-upserted_row compression),
          find-upsert next_row k t t' row ∙ rw (username-upserted_row compression) refl,
        )
