-- ===== src/Withdraw/Hex/Laws.antt =====
-- 32 bytes hold what a number below 2 ^ 256 is, and the proof is laid out for the verifier.
use mathlib.Core.List.{append_assoc}
use native.Mathlib.Nat.{pow-suc}
use skaus.Prelude.{
  ℕ, zero, suc, ◌+◌, ◌-◌, ◌*◌, ◌/◌, ◌%◌, ◌^◌, ◌≤◌, ◌<◌, ◌≡◌, refl, sym, ◌∙◌, ap, List, [], ◌∷◌,
  ◌++◌, inl, inr, ltb, length, replicate, arith, map, All, Bool-cases, ltb-false, length-append,
  length-replicate,
}
use skaus.Prelude.Bytes.{Bytes, concat, cut, HaveSizes, cut-concat, length-concat}
use skaus.Withdraw.Hex.{
  to_hex_fuel, to_hex, pad_start, from_hex, bigint_to_bytes32_be, read_hex, byte_digits,
  bytes32_to_bigint, Groth16Proof, proof_to_bytes,
}

read_hex-append :
    (acc : ℕ) (xs ys : List ℕ) → read_hex acc (xs ++ ys) ≡ read_hex (read_hex acc xs) ys
unfolding read_hex
read_hex-append acc [] ys = refl
read_hex-append acc (x ∷ xs) ys = read_hex-append (acc * 16 + x) xs ys

read_hex-to_hex_fuel : (fuel n : ℕ) → n ≤ fuel → read_hex 0 (to_hex_fuel fuel n) ≡ n
unfolding to_hex_fuel read_hex
read_hex-to_hex_fuel zero n h = omega arith
read_hex-to_hex_fuel (suc fuel) n h = elim (Bool-cases (ltb n 16)) [
  | inl e ↦ rw e (omega arith)
  | inr e ↦
      let big = ltb-false n 16 e in
      rw (e, read_hex-append 0 (to_hex_fuel fuel (n / 16)) (n % 16 ∷ []))
        (omega (arith, read_hex-to_hex_fuel fuel (n / 16) (omega arith)))
]

length-to_hex_fuel : (fuel n k : ℕ) → n < 16 ^ suc k → length (to_hex_fuel fuel n) ≤ suc k
unfolding to_hex_fuel
length-to_hex_fuel zero n k h = omega arith
length-to_hex_fuel (suc fuel) n zero h = elim (Bool-cases (ltb n 16)) [
  | inl e ↦ rw e (omega arith)
  | inr e ↦ absurd (omega (arith, ltb-false n 16 e, pow-suc 16 0))
]
length-to_hex_fuel (suc fuel) n (suc k) h = elim (Bool-cases (ltb n 16)) [
  | inl e ↦ rw e (omega arith)
  | inr e ↦
      let less : n < 16 ^ suc k * 16 = rw (← pow-suc 16 (suc k)) h in
      rw (e, length-append (to_hex_fuel fuel (n / 16)) (n % 16 ∷ []))
        (omega (arith, length-to_hex_fuel fuel (n / 16) k (omega arith)))
]

read_hex-zeros : (n : ℕ) (ds : List ℕ) → read_hex 0 (replicate n 0 ++ ds) ≡ read_hex 0 ds
unfolding read_hex
read_hex-zeros zero ds = refl
read_hex-zeros (suc n) ds = read_hex-zeros n ds

-- Pairs of digits are bytes with the same value.
read_hex-from_hex :
    (n acc : ℕ) (ds : List ℕ)
    → length ds ≡ 2 * n
    → (read_hex acc (byte_digits (from_hex ds)) ≡ read_hex acc ds) × (length (from_hex ds) ≡ n)
unfolding read_hex byte_digits from_hex
read_hex-from_hex zero acc [] h = (refl, refl)
read_hex-from_hex (suc n) acc [] h = absurd (omega arith)
read_hex-from_hex n acc (d ∷ []) h = absurd (omega arith)
read_hex-from_hex zero acc (d ∷ e ∷ ds) h = absurd (omega arith)
read_hex-from_hex (suc n) acc (d ∷ e ∷ ds) h =
    let value : (acc * 16 + (d * 16 + e) / 16) * 16 + (d * 16 + e) % 16 ≡ (acc * 16 + d) * 16 + e =
      omega arith in
    let (same, count) = read_hex-from_hex n ((acc * 16 + d) * 16 + e) ds (omega arith) in
    (rw value same, ap suc count)

digits64 : (n : ℕ) → n < 2 ^ 256 → length (pad_start 64 (to_hex n)) ≡ 64
unfolding pad_start to_hex
digits64 n h =
    let ds = to_hex_fuel n n in
    let short : length ds ≤ 64 = length-to_hex_fuel n n 63 h in
    length-append (replicate (64 - length ds) 0) ds
    ∙ rw (length-replicate {A = ℕ} (64 - length ds) 0) (omega arith)

read_hex-pad_start : (n : ℕ) → read_hex 0 (pad_start 64 (to_hex n)) ≡ n
unfolding pad_start to_hex
read_hex-pad_start n =
    read_hex-zeros (64 - length (to_hex_fuel n n)) (to_hex_fuel n n)
    ∙ read_hex-to_hex_fuel n n (omega arith)

-- A number below 2 ^ 256 takes 32 bytes, and read back they give the number.
pub bytes32_to_bigint-bigint_to_bytes32_be :
    (n : ℕ)
    → n < 2 ^ 256
    → (length (bigint_to_bytes32_be n) ≡ 32) × (bytes32_to_bigint (bigint_to_bytes32_be n) ≡ n)
unfolding bigint_to_bytes32_be bytes32_to_bigint
bytes32_to_bigint-bigint_to_bytes32_be n h =
    let (same, count) = read_hex-from_hex 32 0 (pad_start 64 (to_hex n)) (digits64 n h) in
    (count, same ∙ read_hex-pad_start n)

-- The order in which the verifier reads the coordinates: the imaginary part before the real one.
abbrev pub coordinates : Groth16Proof → List ℕ
coordinates p = p.a_x ∷ p.a_y ∷ p.b_x1 ∷ p.b_x0 ∷ p.b_y1 ∷ p.b_y0 ∷ p.c_x ∷ p.c_y ∷ []

abbrev pub widths : List ℕ
widths = 32 ∷ 32 ∷ 32 ∷ 32 ∷ 32 ∷ 32 ∷ 32 ∷ 32 ∷ []

concat-append : (xs ys : List Bytes) → concat (xs ++ ys) ≡ concat xs ++ concat ys
concat-append [] ys = refl
concat-append (x ∷ xs) ys =
    ap (λ r. x ++ r) (concat-append xs ys) ∙ sym (append_assoc x (concat xs) (concat ys))

concat_groups :
    (xs ys zs : List Bytes)
    → concat (concat xs ∷ concat ys ∷ concat zs ∷ []) ≡ concat (xs ++ (ys ++ (zs ++ [])))
concat_groups xs ys zs =
    rw (concat-append xs (ys ++ (zs ++ [])), concat-append ys (zs ++ []), concat-append zs [])

flat_proof :
    (p : Groth16Proof) → proof_to_bytes p ≡ concat (map bigint_to_bytes32_be (coordinates p))
unfolding proof_to_bytes
flat_proof p =
    let b = bigint_to_bytes32_be in
    concat_groups (b p.a_x ∷ b p.a_y ∷ []) (b p.b_x1 ∷ b p.b_x0 ∷ b p.b_y1 ∷ b p.b_y0 ∷ [])
      (b p.c_x ∷ b p.c_y ∷ [])

-- Numbers below 2 ^ 256 make fields of 32 bytes that are read back.
fields_HaveSizes :
    (ns : List ℕ)
    → All (λ n. n < 2 ^ 256) ns
    → HaveSizes (replicate (length ns) 32) (map bigint_to_bytes32_be ns)
      × (map bytes32_to_bigint (map bigint_to_bytes32_be ns) ≡ ns)
fields_HaveSizes [] bounds = (tt, refl)
fields_HaveSizes (n ∷ ns) (bound, bounds) =
    let (size, value) = bytes32_to_bigint-bigint_to_bytes32_be n bound in
    let (sizes, values) = fields_HaveSizes ns bounds in ((size, sizes), rw (value, values))

-- The encoding of a proof whose coordinates are below 2 ^ 256, cut into eight fields of 32 bytes and
-- read back, gives the coordinates in the order the verifier reads them, and it takes 256 bytes.
proof_to_bytes-layout :
    (p : Groth16Proof)
    → All (λ n. n < 2 ^ 256) (coordinates p)
    → (map bytes32_to_bigint (cut widths (proof_to_bytes p)) ≡ coordinates p)
      × (length (proof_to_bytes p) ≡ 256)
proof_to_bytes-layout p bounds =
    let fields = map bigint_to_bytes32_be (coordinates p) in
    let (sizes, values) = fields_HaveSizes (coordinates p) bounds in
    (
      ap (map bytes32_to_bigint) (ap (cut widths) (flat_proof p) ∙ cut-concat widths fields sizes)
          ∙ values,
      ap length (flat_proof p) ∙ length-concat widths fields sizes,
    )
