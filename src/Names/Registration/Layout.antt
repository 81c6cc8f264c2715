-- ===== src/Names/Registration/Layout.antt =====
-- The data of a registration are the fields of the program's instruction, one behind the other.
use mathlib.Core.List.{append_assoc, append-nil}
use skaus.Prelude.{
  ℕ, zero, suc, ◌+◌, ◌-◌, ◌≤◌, ◌≡◌, refl, ap, ◌∙◌, sym, [], ◌∷◌, ◌++◌, length, take, drop,
  replicate, length-append, length-replicate, take-append, drop-append, drop-drop, arith,
}
use skaus.Prelude.Bytes.{Bytes, le_bytes, length-le_bytes}
use skaus.Names.Registration.{copy_into, register_data}

drop-replicate : (n m k a : ℕ) → n ≡ m + k → drop m (replicate n a) ≡ replicate k a
drop-replicate n zero k a e = let same : n ≡ k = omega arith in rw same
drop-replicate zero (suc m) k a e = absurd (omega arith)
drop-replicate (suc n) (suc m) k a e = drop-replicate n m k a (omega arith)

take_all : (n : ℕ) (xs : Bytes) → length xs ≤ n → take n xs ≡ xs
take_all zero [] h = refl
take_all zero (x ∷ xs) h = absurd (omega arith)
take_all (suc n) [] h = refl
take_all (suc n) (x ∷ xs) h = ap (◌∷◌ x) (take_all n xs (omega arith))

-- A field copied behind the bytes that are written already.
fill :
    (offset n k : ℕ) (written field : Bytes)
    → length written ≡ offset
    → n ≡ length field + k
    → copy_into offset field (written ++ replicate n 0) ≡ (written ++ field) ++ replicate k 0
unfolding copy_into
fill offset n k written field h e =
    let zeros : Bytes = replicate n 0 in
    let whole : Bytes = written ++ zeros in
    let size : length whole - offset ≡ n =
      omega (arith, length-append written zeros, length-replicate {A = ℕ} n 0) in
    let behind : drop (offset + length field) whole ≡ replicate k 0 =
      drop-drop offset (length field) (offset + length field) whole refl
      ∙ ap (drop (length field)) (drop-append offset written zeros h)
      ∙ drop-replicate n (length field) k 0 e in
    rw (take-append offset written zeros h, size, take_all n field (omega arith), behind)
      (sym (append_assoc written field (replicate k 0)))

-- The buffer is filled with the fields of the program's instruction: its name as a text of UTF-8 with
-- its length, the hash, the two keys and the version 1, if the hash and the keys have 32 bytes.
register_data-concat :
    (disc name hash scan spend : Bytes)
    → length disc ≡ 8
    → length hash ≡ 32
    → length scan ≡ 32
    → length spend ≡ 32
    → register_data disc name hash scan spend
      ≡ disc ++ le_bytes 4 (length name) ++ name ++ hash ++ scan ++ spend ++ 1 ∷ []
unfolding register_data
register_data-concat disc name hash scan spend hd hh hs hp =
    let n = length name in
    let size : Bytes = le_bytes 4 n in
    let w2 : Bytes = disc ++ size in
    let w3 : Bytes = w2 ++ name in
    let w4 : Bytes = w3 ++ hash in
    let w5 : Bytes = w4 ++ scan in
    let l2 = length-append disc size in
    let l3 = length-append w2 name in
    let l4 = length-append w3 hash in
    let l5 = length-append w4 scan in
    let l6 = length-append w5 spend in
    let four = length-le_bytes 4 n in
    rw
      (
        fill 0 (8 + 4 + n + 32 + 32 + 32 + 1) (4 + n + 97) [] disc refl (omega arith),
        fill 8 (4 + n + 97) (n + 97) disc size hd (omega arith),
        fill 12 (n + 97) 97 w2 name (omega arith) (omega arith),
        fill (12 + n) 97 65 w3 hash (omega arith) (omega arith),
        fill (12 + n + 32) 65 33 w4 scan (omega arith) (omega arith),
        fill (12 + n + 64) 33 1 w5 spend (omega arith) (omega arith),
        fill (12 + n + 96) 1 0 (w5 ++ spend) (1 ∷ []) (omega arith) refl,
      )
      (append-nil _)
