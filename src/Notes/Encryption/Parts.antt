-- ===== src/Notes/Encryption/Parts.antt =====
-- The parts of a sealed message: a nonce of 12 bytes, the cipher text, and a tag of 16 bytes.
use skaus.Prelude.{
  ◌+◌, ◌-◌, ◌≡◌, refl, ap, sym, ◌∙◌, ◌++◌, length, drop, arith, length-append, take-append,
  drop-append, drop-drop,
}
use skaus.Prelude.Bytes.{Bytes, slice}

pub length-parts :
    (nonce ciphertext tag : Bytes)
    → length nonce ≡ 12
    → length tag ≡ 16
    → length (nonce ++ (ciphertext ++ tag)) - 16 ≡ 12 + length ciphertext
length-parts nonce ciphertext tag b d =
    omega (arith, length-append nonce (ciphertext ++ tag), length-append ciphertext tag)

pub slice-ciphertext :
    (nonce ciphertext tag : Bytes)
    → length nonce ≡ 12
    → length tag ≡ 16
    → let rest = nonce ++ (ciphertext ++ tag) in slice 12 (length rest - 16) rest ≡ ciphertext
slice-ciphertext nonce ciphertext tag b d =
    let rest = nonce ++ (ciphertext ++ tag) in
    let size : length rest - 16 - 12 ≡ length ciphertext =
      omega (arith, length-parts nonce ciphertext tag b d) in
    rw (size, drop-append 12 nonce (ciphertext ++ tag) b)
      (take-append (length ciphertext) ciphertext tag refl)

pub drop-tag :
    (nonce ciphertext tag : Bytes)
    → length nonce ≡ 12
    → length tag ≡ 16
    → let rest = nonce ++ (ciphertext ++ tag) in drop (length rest - 16) rest ≡ tag
drop-tag nonce ciphertext tag b d =
    let rest = nonce ++ (ciphertext ++ tag) in
    drop-drop 12 (length ciphertext) (length rest - 16) rest
      (sym (length-parts nonce ciphertext tag b d))
    ∙ ap (drop (length ciphertext)) (drop-append 12 nonce (ciphertext ++ tag) b)
    ∙ drop-append (length ciphertext) ciphertext tag refl
