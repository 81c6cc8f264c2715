-- ===== src/Profiles/Store/Link.antt =====
-- What the program reads of the data that links a profile: its argument is 32 bytes behind the
-- discriminator (programs/name-registry/src/lib.rs, `update_profile`).
use mathlib.Core.List.{append-nil}
use skaus.Prelude.{
  ℕ, zero, suc, ◌≡◌, ◌↔◌, refl, ◌∙◌, sym, some, true, [], ◌∷◌, ◌++◌, length, take, replicate,
  drop-append, ==_iff, ◌==◌,
}
use skaus.Prelude.Bytes.{Bytes, slice}
use skaus.Profiles.Store.{update_profile_data}

-- A list that starts with a one and goes on with itself has only ones.
shifted_ones : (n : ℕ) (xs : Bytes) → 1 ∷ take n xs ≡ xs → xs ≡ replicate (suc n) 1
shifted_ones n [] e = cc
shifted_ones zero (x ∷ xs) e = cc
shifted_ones (suc n) (x ∷ xs) e =
    let first : 1 ≡ x = cc in
    let rest : x ∷ take n xs ≡ xs = cc in
    let again : 1 ∷ take n xs ≡ xs = rw first rest in rw (← first, shifted_ones n xs again) refl

-- From a discriminator of 8 bytes and a hash of 32, the program reads a one and the first 31 bytes of
-- the hash: it reads the hash only if that is 32 ones.
update_profile_data-shifted :
    (disc hash : Bytes)
    → length disc ≡ 8
    → length hash ≡ 32
    → ((bytes : Bytes) × (update_profile_data disc hash ≡ some bytes)
        × (slice 8 40 bytes ≡ 1 ∷ take 31 hash)
        × ((slice 8 40 bytes ≡ hash) ↔ (hash ≡ replicate 32 1)))
unfolding update_profile_data
update_profile_data-shifted disc hash hd hh =
    let rest : Bytes = 1 ∷ ((hash ++ []) ++ []) in
    let size : (length hash == 32) ≡ true = (==_iff (length hash) 32).1 hh in
    let read : slice 8 40 (disc ++ rest) ≡ 1 ∷ take 31 hash =
      rw (drop-append 8 disc rest hd, append-nil hash, append-nil hash) refl in
    (
      disc ++ rest,
      rw size refl,
      read,
      (λ e. shifted_ones 31 hash (sym read ∙ e), λ e. read ∙ rw e refl),
    )
