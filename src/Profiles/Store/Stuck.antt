-- ===== src/Profiles/Store/Stuck.antt =====
-- Writes of one profile over and over, while its account does not exist on the chain.
use skaus.Prelude.{
  ◌≡◌, refl, ap, ◌∙◌, String, false, ◌&&◌, inl, inr, none, some, List, [], ◌∷◌, All, str_eq,
  Bool-cases, Option-cases,
}
use skaus.Profiles.Codec.{CompressedProfile}
use skaus.Profiles.Store.{
  ProfileTable, Light, UpsertResult, off_chain, hash_of_row, compress_profile, upserted_row,
  upsert_result, compression_of, upsert_profile,
}
use skaus.Profiles.Store.Found.{upsert_profile-row, find-row}

module _ {N : Type 0} (address : String → String) where
  compress_profile-off_chain :
      (light : Light N) (p : CompressedProfile N) (authority : String)
      → str_eq (address authority) "" ≡ false
      → light.update (address authority) p ≡ none
      → compress_profile address light p (some (address authority)) authority
        ≡ off_chain address authority
  unfolding compress_profile
  compress_profile-off_chain light p authority named gone =
      elim (Bool-cases (light.enabled && light.has_relayer)) [
        | inl e ↦ rw (e, named, gone) refl
        | inr e ↦ rw e refl
      ]

  module _ (m : ProfileTable N) (lower : String → String) (username authority : String) where
    open m use {Table, find, upsert}

    -- The results of the writes that return, for one name and authority.
    unfoldable pub puts : List (Light N × CompressedProfile N) → Table → List UpsertResult
    puts [] t = []
    puts ((light, p) ∷ rest) t =
        elim (upsert_profile address m lower light username p none (some authority) t) [
          | none ↦ puts rest t
          | some (r, t') ↦ r ∷ puts rest t'
        ]

    -- The hash that a creation on the chain that failed leaves in the row.
    abbrev pub HasLocalHash : Table → Type 0
    HasLocalHash t = hash_of_row (find (lower username) t) ≡ some (address authority)

    -- On the chain there is nothing to update at the address.
    abbrev pub IsMissing : Light N × CompressedProfile N → Type 0
    IsMissing x = x.0.update (address authority) x.1 ≡ none

    compression-off_chain :
        (light : Light N) (p : CompressedProfile N) (t : Table)
        → str_eq (address authority) "" ≡ false
        → light.update (address authority) p ≡ none
        → HasLocalHash t
        → compression_of address m lower light username p (some authority) t
          ≡ some (off_chain address authority)
    unfolding compression_of
    compression-off_chain light p t named gone local =
        rw local (ap some (compress_profile-off_chain light p authority named gone))

    puts-lost :
        (light : Light N) (p : CompressedProfile N) (rest : List (Light N × CompressedProfile N))
        (t : Table)
        → upsert_profile address m lower light username p none (some authority) t ≡ none
        → puts ((light, p) ∷ rest) t ≡ puts rest t
    unfolding puts
    puts-lost light p rest t e = rw (puts, e) refl

    puts-returned :
        (light : Light N) (p : CompressedProfile N) (rest : List (Light N × CompressedProfile N))
        (t : Table) (r : UpsertResult) (t' : Table)
        → upsert_profile address m lower light username p none (some authority) t ≡ some (r, t')
        → puts ((light, p) ∷ rest) t ≡ r ∷ puts rest t'
    unfolding puts
    puts-returned light p rest t r t' e = rw (puts, e) refl

    -- From a row whose hash is the local one of an authority, as a creation that failed leaves it, and
    -- as long as there is no account at that address to update: of any sequence of writes of the
    -- profile by that same authority and without a name hash, with no other write between them, each
    -- that returns stays off the chain, whether or not a creation would now succeed.
    pub puts-off_chain :
        (xs : List (Light N × CompressedProfile N)) (t : Table)
        → str_eq (address authority) "" ≡ false
        → All IsMissing xs
        → HasLocalHash t
        → All (λ r. r.compressed_on_chain ≡ false) (puts xs t)
    unfolding puts upsert_result upserted_row
    puts-off_chain [] t named gone local = tt
    puts-off_chain ((light, p) ∷ rest) t named (g, gone) local =
        elim (Option-cases
          (upsert_profile address m lower light username p none (some authority) t)) [
            | inl e ↦ rw (puts-lost light p rest t e) (puts-off_chain rest t named gone local)
            | inr ((r, t'), e) ↦
                let off = compression-off_chain light p t named g local in
                let (result, row) =
                  upsert_profile-row address m lower light username p none (some authority) t r t'
                    e in
                let seen =
                  find-row address m lower light username p none (some authority) t t' row in
                rw (puts-returned light p rest t r t' e) (
                  ap (λ x. x.compressed_on_chain) result ∙ rw off refl,
                  puts-off_chain rest t' named gone (rw (seen, off) refl),
                )
          ]
