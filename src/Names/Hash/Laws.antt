-- ===== src/Names/Hash/Laws.antt =====
-- The client and the program hash the same elements, and the elements determine the name.
use native.Mathlib.Nat.{pow-suc, mul_assoc, mul_comm, mul-add}
use skaus.Prelude.{
  ℕ, zero, suc, ◌+◌, ◌-◌, ◌*◌, ◌^◌, ◌≤◌, ◌<◌, ◌≡◌, ◌≢◌, refl, ap, ◌∙◌, sym, some, [], ◌∷◌, ◌++◌,
  map, length, take, drop, replicate, get_elem?, length-take, length-drop, All, arith,
}
use skaus.Prelude.Bytes.{Bytes, of_le}
use skaus.Names.Hash.{slices, pack, name_chunks, set_byte, fill_element, name_elements}

-- The value of bytes with the highest first.
unfoldable pub of_be : Bytes → ℕ
of_be [] = 0
of_be (b ∷ bs) = b * 256 ^ length bs + of_be bs

length-set_byte : (i b : ℕ) (xs : Bytes) → length (set_byte i b xs) ≡ length xs
unfolding set_byte
length-set_byte i b [] = refl
length-set_byte zero b (x ∷ xs) = refl
length-set_byte (suc i) b (x ∷ xs) = ap suc (length-set_byte i b xs)

get_elem?-set_byte :
    (i k b : ℕ) (xs : Bytes) → i ≢ k → get_elem? (set_byte i b xs) k ≡ get_elem? xs k
unfolding set_byte
get_elem?-set_byte i k b [] h = refl
get_elem?-set_byte zero zero b (x ∷ xs) h = absurd (h refl)
get_elem?-set_byte zero (suc k) b (x ∷ xs) h = refl
get_elem?-set_byte (suc i) zero b (x ∷ xs) h = refl
get_elem?-set_byte (suc i) (suc k) b (x ∷ xs) h = get_elem?-set_byte i k b xs (λ e. h (ap suc e))

-- A byte set where there was a zero adds its value at that place.
of_be-set_byte :
    (i j b : ℕ) (xs : Bytes)
    → i + suc j ≡ length xs
    → get_elem? xs i ≡ some 0
    → of_be (set_byte i b xs) ≡ of_be xs + b * 256 ^ j
unfolding of_be set_byte
of_be-set_byte i j b [] e h = absurd (omega arith)
of_be-set_byte zero j b (x ∷ xs) e h =
    let same : length xs ≡ j = omega arith in
    let empty : x ≡ 0 = ground arith in rw (same, empty) (omega arith)
of_be-set_byte (suc i) j b (x ∷ xs) e h =
    rw (length-set_byte i b xs, of_be-set_byte i j b xs (omega arith) h) (omega arith)

-- The places from `j` on are still empty.
record IsEmptyFrom (j : ℕ) (be : Bytes) : Type 0 where
  size : length be ≡ 32
  empty : (k : ℕ) → j ≤ k → k < 32 → get_elem? be (31 - k) ≡ some 0

set_byte-IsEmptyFrom :
    (j b : ℕ) (be : Bytes)
    → j < 32
    → IsEmptyFrom j be
    → IsEmptyFrom (suc j) (set_byte (31 - j) b be)
set_byte-IsEmptyFrom j b be small h = record {
  size = length-set_byte (31 - j) b be ∙ h.size;
  empty = λ k above below.
      get_elem?-set_byte (31 - j) (31 - k) b be (λ e. omega arith) ∙ h.empty k (omega arith) below;
}

of_be-fill_element :
    (j : ℕ) (be bytes : Bytes)
    → j + length bytes ≤ 32
    → IsEmptyFrom j be
    → of_be (fill_element j be bytes) ≡ pack j (of_be be) bytes
unfolding fill_element pack
of_be-fill_element j be [] fits h = refl
of_be-fill_element j be (b ∷ bytes) fits h =
    let small : j < 32 = omega arith in
    let place : 31 - j + suc j ≡ length be = omega (arith, h.size) in
    of_be-fill_element (suc j) (set_byte (31 - j) b be) bytes (omega arith)
      (set_byte-IsEmptyFrom j b be small h)
    ∙ ap (λ v. pack (suc j) v bytes)
        (of_be-set_byte (31 - j) j b be place (h.empty j (omega arith) small))

get_elem?-replicate : (n i a : ℕ) → i < n → get_elem? (replicate n a) i ≡ some a
get_elem?-replicate zero i a h = absurd (omega arith)
get_elem?-replicate (suc n) zero a h = refl
get_elem?-replicate (suc n) (suc i) a h = get_elem?-replicate n i a (omega arith)

zeros-IsEmptyFrom : IsEmptyFrom 0 (replicate 32 0)
zeros-IsEmptyFrom = record {
  size = refl;
  empty = λ k above below. get_elem?-replicate 32 (31 - k) 0 (omega arith);
}

of_be-zeros : of_be (replicate 32 0) ≡ 0
unfolding of_be
of_be-zeros = refl

-- An element of at most 31 bytes has the value of the client's number.
of_be-element :
    (bytes : Bytes)
    → length bytes ≤ 31
    → of_be (fill_element 0 (replicate 32 0) bytes) ≡ pack 0 0 bytes
of_be-element bytes h =
    of_be-fill_element 0 (replicate 32 0) bytes (omega arith) zeros-IsEmptyFrom
    ∙ rw of_be-zeros refl

of_be-elements :
    (fuel : ℕ) (bytes : Bytes)
    → map of_be (map (fill_element 0 (replicate 32 0)) (slices fuel bytes))
      ≡ map (pack 0 0) (slices fuel bytes)
unfolding slices
of_be-elements zero bytes = refl
of_be-elements (suc fuel) [] = refl
of_be-elements (suc fuel) (b ∷ bytes) =
    let short : length (take 31 (b ∷ bytes)) ≤ 31 = omega (arith, length-take 31 (b ∷ bytes)) in
    rw (of_be-element (take 31 (b ∷ bytes)) short, of_be-elements fuel (drop 31 (b ∷ bytes))) refl

-- The values of the program's elements are the numbers that the client hashes.
of_be-name_elements : (bytes : Bytes) → map of_be (name_elements bytes) ≡ name_chunks bytes
unfolding name_elements name_chunks
of_be-name_elements bytes = of_be-elements (length bytes) bytes

regroup : (v b p l : ℕ) → v + b * p + p * 256 * l ≡ v + p * (b + 256 * l)
regroup v b p l = rw (mul-add p b (256 * l), mul_assoc p 256 l, mul_comm b p) (omega arith)

pack-of_le : (j v : ℕ) (bytes : Bytes) → pack j v bytes ≡ v + 256 ^ j * of_le bytes
unfolding pack of_le
pack-of_le j v [] = omega arith
pack-of_le j v (b ∷ bytes) =
    pack-of_le (suc j) (v + b * 256 ^ j) bytes
    ∙ rw (pow-suc 256 j) (regroup v b (256 ^ j) (of_le bytes))

-- A byte of a name: not zero, so that the end of a name shows.
abbrev pub IsByte : ℕ → Type 0
IsByte b = (1 ≤ b) × (b < 256)

of_le-injective : (xs ys : Bytes) → All IsByte xs → All IsByte ys → of_le xs ≡ of_le ys → xs ≡ ys
unfolding of_le
of_le-injective [] [] h k e = refl
of_le-injective [] (y ∷ ys) h ((low, high), k) e = absurd (omega arith)
of_le-injective (x ∷ xs) [] ((low, high), h) k e = absurd (omega arith)
of_le-injective (x ∷ xs) (y ∷ ys) ((xl, xh), h) ((yl, yh), k) e =
    let first : x ≡ y = omega arith in
    let rest : of_le xs ≡ of_le ys = omega arith in rw (first, of_le-injective xs ys h k rest) refl

of_le-IsByte : (xs ys : Bytes) → All IsByte xs → All IsByte ys → pack 0 0 xs ≡ pack 0 0 ys → xs ≡ ys
of_le-IsByte xs ys h k e =
    of_le-injective xs ys h k (omega (arith, pack-of_le 0 0 xs, pack-of_le 0 0 ys))

take-drop : (n : ℕ) (xs : Bytes) → take n xs ++ drop n xs ≡ xs
take-drop zero xs = refl
take-drop (suc n) [] = refl
take-drop (suc n) (x ∷ xs) = ap (◌∷◌ x) (take-drop n xs)

same_halves : (n : ℕ) (xs ys : Bytes) → take n xs ≡ take n ys → drop n xs ≡ drop n ys → xs ≡ ys
same_halves n xs ys front back = sym (take-drop n xs) ∙ rw (front, back) (take-drop n ys)

take-All : (n : ℕ) (xs : Bytes) → All IsByte xs → All IsByte (take n xs)
take-All zero xs h = tt
take-All (suc n) [] h = tt
take-All (suc n) (x ∷ xs) (p, h) = (p, take-All n xs h)

drop-All : (n : ℕ) (xs : Bytes) → All IsByte xs → All IsByte (drop n xs)
drop-All zero xs h = h
drop-All (suc n) [] h = tt
drop-All (suc n) (x ∷ xs) (p, h) = drop-All n xs h

slices-injective :
    (n m : ℕ) (xs ys : Bytes)
    → length xs ≤ n
    → length ys ≤ m
    → All IsByte xs
    → All IsByte ys
    → map (pack 0 0) (slices n xs) ≡ map (pack 0 0) (slices m ys)
    → xs ≡ ys
unfolding slices
slices-injective n m [] [] a b h k e = refl
slices-injective zero m (x ∷ xs) ys a b h k e = absurd (omega arith)
slices-injective n zero xs (y ∷ ys) a b h k e = absurd (omega arith)
slices-injective (suc n) zero (x ∷ xs) [] a b h k e = cc
slices-injective (suc n) (suc m) (x ∷ xs) [] a b h k e = cc
slices-injective zero (suc m) [] (y ∷ ys) a b h k e = cc
slices-injective (suc n) (suc m) [] (y ∷ ys) a b h k e = cc
slices-injective (suc n) (suc m) (x ∷ xs) (y ∷ ys) a b h k e =
    let first : pack 0 0 (take 31 (x ∷ xs)) ≡ pack 0 0 (take 31 (y ∷ ys)) = cc in
    let others : map (pack 0 0) (slices n (drop 31 (x ∷ xs)))
        ≡ map (pack 0 0) (slices m (drop 31 (y ∷ ys))) =
      cc in
    let front =
      of_le-IsByte (take 31 (x ∷ xs)) (take 31 (y ∷ ys)) (take-All 31 (x ∷ xs) h)
        (take-All 31 (y ∷ ys) k) first in
    let back =
      slices-injective n m (drop 31 (x ∷ xs)) (drop 31 (y ∷ ys))
        (omega (arith, length-drop 31 (x ∷ xs))) (omega (arith, length-drop 31 (y ∷ ys)))
        (drop-All 31 (x ∷ xs) h) (drop-All 31 (y ∷ ys) k) others in
    same_halves 31 (x ∷ xs) (y ∷ ys) front back

-- Two names whose bytes are not zero are hashed from the same numbers only if they are one name.
pub name_chunks-injective :
    (xs ys : Bytes) → All IsByte xs → All IsByte ys → name_chunks xs ≡ name_chunks ys → xs ≡ ys
unfolding name_chunks
name_chunks-injective xs ys h k e =
    slices-injective (length xs) (length ys) xs ys (omega arith) (omega arith) h k e
