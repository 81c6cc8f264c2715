-- ===== src/Profiles/Gated/Seal.antt =====
-- A sealed URI is opened to the URI.
use skaus.Prelude.{
  ℕ, ◌+◌, ◌*◌, ◌/◌, ◌%◌, ◌<◌, ◌≡◌, refl, ◌∙◌, Bool, true, false, some, List, [], ◌∷◌, ◌++◌, All,
  ◌==◌, if◌then◌else◌, arith,
}
use skaus.Prelude.Bytes.{Bytes}
use skaus.Withdraw.Hex.{byte_digits}
use skaus.Profiles.Gated.{
  Cipher, sealed_prefix, dot, hex_char, hex_text, hex_value, read_hex_text, split_dots,
  behind_prefix, encrypt_uri, decrypt_parts, decrypt_uri,
}

hex_value-hex_char : (d : ℕ) → d < 16 → hex_value (hex_char d) ≡ some d
unfolding hex_value hex_char
hex_value-hex_char d h = ground arith

hex_char-dot : (d : ℕ) → d < 16 → (hex_char d == dot) ≡ false
unfolding hex_char
hex_char-dot d h = ground arith

read_hex_text-hex_text : (bs : Bytes) → All (λ b. b < 256) bs → read_hex_text (hex_text bs) ≡ bs
unfolding read_hex_text hex_text byte_digits
read_hex_text-hex_text [] h = refl
read_hex_text-hex_text (b ∷ bs) (k, h) =
    let same : b / 16 * 16 + b % 16 ≡ b = omega arith in
    rw
      (
        hex_value-hex_char (b / 16) (omega arith),
        hex_value-hex_char (b % 16) (omega arith),
        same,
        read_hex_text-hex_text bs h,
      )
      refl

-- A text without dots in front of a dot is the first part.
unfoldable no_dots : Bytes → Bool
no_dots [] = true
no_dots (c ∷ cs) = if c == dot then false else no_dots cs

split_dots-first :
    (xs ys : Bytes) → no_dots xs ≡ true → split_dots (xs ++ dot ∷ ys) ≡ xs ∷ split_dots ys
unfolding split_dots no_dots
split_dots-first [] ys h = refl
split_dots-first (x ∷ xs) ys h =
    let front : (x == dot) ≡ false = ground arith in
    let rest : no_dots xs ≡ true = ground arith in rw (front, split_dots-first xs ys rest) refl

split_dots-last : (xs : Bytes) → no_dots xs ≡ true → split_dots xs ≡ xs ∷ []
unfolding split_dots no_dots
split_dots-last [] h = refl
split_dots-last (x ∷ xs) h =
    let front : (x == dot) ≡ false = ground arith in
    let rest : no_dots xs ≡ true = ground arith in rw (front, split_dots-last xs rest) refl

no_dots-hex_text : (bs : Bytes) → All (λ b. b < 256) bs → no_dots (hex_text bs) ≡ true
unfolding no_dots hex_text byte_digits
no_dots-hex_text [] h = refl
no_dots-hex_text (b ∷ bs) (k, h) =
    rw (hex_char-dot (b / 16) (omega arith), hex_char-dot (b % 16) (omega arith))
      (no_dots-hex_text bs h)

split-sealed :
    (a b c : Bytes)
    → no_dots a ≡ true
    → no_dots b ≡ true
    → no_dots c ≡ true
    → split_dots (a ++ dot ∷ (b ++ dot ∷ c)) ≡ a ∷ b ∷ c ∷ []
split-sealed a b c h k l =
    rw (split_dots-first a (b ++ dot ∷ c) h, split_dots-first b c k, split_dots-last c l) refl

decrypt_uri-split :
    (cipher : Cipher) (rest : Bytes) (parts : List Bytes)
    → split_dots rest ≡ parts
    → decrypt_uri cipher (sealed_prefix ++ rest) ≡ decrypt_parts cipher parts
unfolding decrypt_uri behind_prefix
decrypt_uri-split cipher rest parts e = rw e refl

decrypt_parts-three :
    (cipher : Cipher) (a b c iv ct tag : Bytes)
    → read_hex_text a ≡ iv
    → read_hex_text b ≡ ct
    → read_hex_text c ≡ tag
    → decrypt_parts cipher (a ∷ b ∷ c ∷ []) ≡ cipher.unseal iv ct tag
unfolding decrypt_parts
decrypt_parts-three cipher a b c iv ct tag d e f = rw (decrypt_parts, d, e, f) refl

module _ (cipher : Cipher)
    (opens : (iv plain : Bytes)
      → cipher.unseal iv (cipher.seal iv plain).0 (cipher.seal iv plain).1 ≡ some plain) where
  -- If the cipher opens what it sealed with one vector, and gives bytes: the URI that was sealed with a
  -- vector of bytes is read back from its text.
  decrypt_uri-encrypt_uri :
      (iv plain : Bytes)
      → All (λ b. b < 256) iv
      → All (λ b. b < 256) (cipher.seal iv plain).0
      → All (λ b. b < 256) (cipher.seal iv plain).1
      → decrypt_uri cipher (encrypt_uri cipher iv plain) ≡ some plain
  unfolding encrypt_uri
  decrypt_uri-encrypt_uri iv plain h k l =
      let ct = (cipher.seal iv plain).0 in
      let tag = (cipher.seal iv plain).1 in
      decrypt_uri-split cipher (hex_text iv ++ dot ∷ (hex_text ct ++ dot ∷ hex_text tag))
        (hex_text iv ∷ hex_text ct ∷ hex_text tag ∷ [])
        (split-sealed (hex_text iv) (hex_text ct) (hex_text tag) (no_dots-hex_text iv h)
          (no_dots-hex_text ct k) (no_dots-hex_text tag l))
      ∙ decrypt_parts-three cipher (hex_text iv) (hex_text ct) (hex_text tag) iv ct tag
          (read_hex_text-hex_text iv h) (read_hex_text-hex_text ct k) (read_hex_text-hex_text tag l)
      ∙ opens iv plain
