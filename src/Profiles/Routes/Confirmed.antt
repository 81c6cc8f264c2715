-- ===== src/Profiles/Routes/Confirmed.antt =====
-- From the write of a profile over its link to the confirmation that marks it as on the chain.
use text.Mathlib.TextPositions.{eq_refl}
use skaus.Prelude.{
  ℕ, ◌+◌, ◌≡◌, refl, ap, ◌∙◌, sym, String, true, false, ◌||◌, inl, inr, Option, none, some, str_eq,
  Bool-cases, Option-cases,
}
use skaus.Prelude.Bytes.{Bytes}
use skaus.Profiles.Codec.{CompressedProfile, or_empty}
use skaus.Profiles.Store.{
  ProfileRow, ProfileTable, Light, UpsertResult, or_nothing, hash_of_row, upsert_profile,
  mark_profile_on_chain,
}
use skaus.Profiles.Store.Found.{
  next_row, upsert_profile-row, find-row, upsert_profile-found, username-upserted_row,
  stored-upserted_row, compression,
}
use skaus.Profiles.Routes.{
  ProfileHost, UpdateTx, put_done, linked, confirmed, link_reply, build_update_profile_tx,
  link_with, link_row, put_result, next_version, put_checked, put_decoded, put_profile,
  name_hash_of_row, link_to_chain, confirm_result, confirm_on_chain,
}

module _ (h : ProfileHost) where
  open h use {lower, public_key, poseidon}

  link_with-linked :
      (hash other : String) (name_hash : Option Bytes) (o : Option (String × Bytes)) (tx : UpdateTx)
      → link_with h hash name_hash o ≡ linked tx other
      → other ≡ hash
  unfolding link_with link_reply
  link_with-linked hash other none o tx e = cc
  link_with-linked hash other (some n) none tx e = cc
  link_with-linked hash other (some n) (some (text, key)) tx e =
      elim (Option-cases (build_update_profile_tx h n key hash)) [
        | inl b ↦ let f = rw b at e in cc
        | inr (made, b) ↦ let f : linked made hash ≡ linked tx other = rw b at e in cc
      ]

  link_row-linked :
      {N : Type 0} (username authority other : String) (row : ProfileRow N) (tx : UpdateTx)
      → link_row h username authority (some row) ≡ linked tx other
      → other ≡ or_nothing row.compressed_hash
  unfolding link_row
  link_row-linked username authority other row tx e =
      elim (Bool-cases (str_eq (or_nothing row.compressed_hash) "")) [
        | inl b ↦ let f = rw b at e in cc
        | inr b ↦
            link_with-linked (or_nothing row.compressed_hash) other
              (name_hash_of_row h username row.name_hash) (public_key authority) tx (rw b at e)
      ]

  module _ {N : Type 0} (address : String → String) (m : ProfileTable N) where
    open m use {Table, find, upsert, find-upsert}

    put_result-done :
        (o : Option (UpsertResult × Table)) (t : Table) (r : UpsertResult)
        → (put_result h address m o t).0 ≡ put_done r
        → o ≡ some (r, (put_result h address m o t).1)
    unfolding put_result
    put_result-done none t r e = cc
    put_result-done (some (r', t')) t r e = let same : r' ≡ r = cc in rw same

    put_checked-upserted :
        (light : Light N) (now : ℕ) (username : String) (p : CompressedProfile N)
        (authority : Option String) (t : Table) (r : UpsertResult)
        → let after = put_checked h address m light now username p authority t in
          after.0 ≡ put_done r
          → upsert_profile address m lower light username
              (next_version h address m now p)
              none
              authority
              t
            ≡ some (r, after.1)
    unfolding put_checked
    put_checked-upserted light now username p authority t r e =
        put_result-done
          (upsert_profile address m lower light username (next_version h address m now p) none
            authority t)
          t r e

    put_decoded-upserted :
        (light : Light N) (now : ℕ) (username : String) (p : CompressedProfile N)
        (o : Option (String × Bytes)) (t : Table) (r : UpsertResult)
        → let after = put_decoded h address m light now username p o t in
          after.0 ≡ put_done r
          → (a : Option String) × (upsert_profile address m lower light username
                (next_version h address m now p)
                none
                a
                t
              ≡ some (r, after.1))
    unfolding put_decoded
    put_decoded-upserted light now username p none t r e = cc
    put_decoded-upserted light now username p (some (text, key)) t r e =
        (some text, put_checked-upserted light now username p (some text) t r e)

    put_profile-upserted :
        (light : Light N) (now : ℕ) (username : String) (p : CompressedProfile N)
        (authority : String) (t : Table) (r : UpsertResult)
        → let after = put_profile h address m light now username p authority t in
          after.0 ≡ put_done r
          → (a : Option String) × (upsert_profile address m lower light username
                (next_version h address m now p)
                none
                a
                t
              ≡ some (r, after.1))
    unfolding put_profile
    put_profile-upserted light now username p authority t r e =
        elim (Bool-cases (str_eq p.display_name "")) [
          | inl b ↦ let f = rw b at e in cc
          | inr b ↦ elim (Bool-cases (str_eq authority "")) [
            | inl c ↦
                rw (b, c)
                  (none, put_checked-upserted light now username p none t r (rw (b, c) at e))
            | inr c ↦
                rw (b, c)
                  (put_decoded-upserted light now username p (public_key authority) t r
                    (rw (b, c) at e))
          ]
        ]

    -- What a confirmed profile's row is.
    pub record IsConfirmed (username hash : String) (p : CompressedProfile N) (t : Table)
        : Type 0 where
      pub row : ProfileRow N
      pub found : find (lower username) t ≡ some row
      pub same_hash : row.compressed_hash ≡ some hash
      pub marked : row.compressed_on_chain ≡ true
      pub same_profile : row.stored ≡ p

    -- The mark of a row that has the hash.
    mark-row :
        (username hash : String) (row : ProfileRow N) (t t' : Table)
        → find (lower username) t ≡ some row
        → row.username ≡ lower username
        → row.compressed_hash ≡ some hash
        → mark_profile_on_chain address m lower username hash t ≡ some t'
        → IsConfirmed username hash row.stored t'
    unfolding mark_profile_on_chain
    mark-row username hash row t t' found named has marked =
        let flagged = record row { compressed_on_chain = true } in
        let written : upsert flagged t ≡ some t' =
          rw (found, mark_profile_on_chain, has, eq_refl hash) at marked in
        record {
          row = flagged;
          found =
              find-upsert flagged (lower username) t t' written
              ∙ rw (named, eq_refl (lower username)) refl;
          same_hash = has;
          marked = refl;
          same_profile = refl;
        }

    confirm-marked :
        (username hash tx_signature : String) (t : Table)
        → let after = confirm_on_chain h address m username hash tx_signature t in
          after.0 ≡ confirmed → mark_profile_on_chain address m lower username hash t ≡ some after.1
    unfolding confirm_on_chain confirm_result
    confirm-marked username hash tx_signature t e =
        elim (Bool-cases (str_eq hash "" || str_eq tx_signature "")) [
          | inl b ↦ let f = rw b at e in cc
          | inr b ↦ elim (Option-cases (mark_profile_on_chain address m lower username hash t)) [
            | inl o ↦ let f = rw (b, o) at e in cc
            | inr (t', o) ↦ rw (b, o)
          ]
        ]

    some_text : (o : Option String) → str_eq (or_nothing o) "" ≡ false → o ≡ some (or_nothing o)
    some_text none e = let f = eq_refl "" in cc
    some_text (some text) e = refl

    link_to_chain-row :
        (username owner other : String) (t : Table) (row : ProfileRow N) (tx : UpdateTx)
        → find (lower username) t ≡ some row
        → link_to_chain h address m username owner t ≡ linked tx other
        → other ≡ or_nothing row.compressed_hash
    unfolding link_to_chain
    link_to_chain-row username owner other t row tx seen l = elim (Bool-cases (str_eq owner "")) [
      | inl b ↦ let f = rw b at l in cc
      | inr b ↦ link_row-linked username owner other row tx (rw (b, seen) at l)
    ]

    -- A profile that was put is linked and confirmed: if the put and the confirmation went through and
    -- the link gave a transaction, the hash that is linked is the one that the put returned, and a
    -- confirmation with that hash leaves the profile, with an empty URI for an avatar that was left out,
    -- marked as on the chain, whatever text stood for the signature.
    pub confirm_on_chain-put :
        (light : Light N) (now : ℕ) (username : String) (p : CompressedProfile N)
        (authority owner other tx_signature : String) (t : Table) (r : UpsertResult) (tx : UpdateTx)
        → (put_profile h address m light now username p authority t).0 ≡ put_done r
        → str_eq r.compressed_hash "" ≡ false
        → link_to_chain h address m username owner
            (put_profile h address m light now username p authority t).1
          ≡ linked tx other
        → (confirm_on_chain h address m username other tx_signature
            (put_profile h address m light now username p authority t).1).0
          ≡ confirmed
        → (other ≡ r.compressed_hash)
          × IsConfirmed username r.compressed_hash
              (record p {
                version = p.version + 1;
                updated_at = now;
                avatar_uri = some (or_empty p.avatar_uri);
              })
              (confirm_on_chain h address m username other tx_signature
                (put_profile h address m light now username p authority t).1).1
    unfolding next_version
    confirm_on_chain-put light now username p authority owner other tx_signature t r tx e full l c =
        let t1 = (put_profile h address m light now username p authority t).1 in
        let (a, upserted) = put_profile-upserted light now username p authority t r e in
        let q = next_version h address m now p in
        let row = next_row address m lower light username q none a t in
        let (result, written) =
          upsert_profile-row address m lower light username q none a t r t1 upserted in
        let seen = find-row address m lower light username q none a t t1 written in
        let same =
          (upsert_profile-found address m lower light username q none a t r t1 username
            upserted).1 in
        let hash : r.compressed_hash ≡ or_nothing row.compressed_hash =
          same ∙ ap (λ o. or_nothing (hash_of_row o)) seen in
        let linked_hash : other ≡ or_nothing row.compressed_hash =
          link_to_chain-row username owner other t1 row tx seen l in
        let equal : other ≡ r.compressed_hash = linked_hash ∙ sym hash in
        let has : row.compressed_hash ≡ some other =
          some_text row.compressed_hash (sym (ap (λ x. str_eq x "") hash) ∙ full)
          ∙ ap some (sym linked_hash) in
        let marked = confirm-marked username other tx_signature t1 c in
        let done =
          mark-row username other row t1
            (confirm_on_chain h address m username other tx_signature t1).1 seen
            (username-upserted_row address m lower light username q none a t
              (compression address m lower light username q none a t))
            has marked in
        (
          equal,
          record {
            row = done.row;
            found = done.found;
            same_hash = done.same_hash ∙ ap some equal;
            marked = done.marked;
            same_profile =
                done.same_profile
                ∙ stored-upserted_row address m lower light username q none a t
                    (compression address m lower light username q none a t);
          },
        )
