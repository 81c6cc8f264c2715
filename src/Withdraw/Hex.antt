-- ===== src/Withdraw/Hex.antt =====
-- packages/sdk/src/pool/proof.ts: field elements as 32 bytes, through hexadecimal texts. A text is
-- the list of its digits' values.
pub mod Laws
use skaus.Prelude.{
  ℕ, zero, suc, ◌+◌, ◌-◌, ◌*◌, ◌/◌, ◌%◌, List, [], ◌∷◌, ◌++◌, ltb, if◌then◌else◌, length, replicate,
}
use skaus.Prelude.Bytes.{Bytes, concat}

-- `toString(16)`; the fuel bounds the number of digits.
unfoldable pub to_hex_fuel : ℕ → ℕ → List ℕ
to_hex_fuel zero n = n ∷ []
to_hex_fuel (suc fuel) n =
    let front = to_hex_fuel fuel (n / 16) in if ltb n 16 then n ∷ [] else front ++ n % 16 ∷ []

unfoldable pub to_hex : ℕ → List ℕ
to_hex n = to_hex_fuel n n

-- `padStart(width, '0')`.
unfoldable pub pad_start : ℕ → List ℕ → List ℕ
pad_start width ds = replicate (width - length ds) 0 ++ ds

-- `Buffer.from(hex, 'hex')`: an odd digit at the end is dropped.
unfoldable pub from_hex : List ℕ → Bytes
from_hex [] = []
from_hex (d ∷ []) = []
from_hex (d ∷ e ∷ ds) = (d * 16 + e) ∷ from_hex ds

unfoldable pub bigint_to_bytes32_be : ℕ → Bytes
bigint_to_bytes32_be n = from_hex (pad_start 64 (to_hex n))

-- The digits of `BigInt('0x' + hex)`, behind a number read so far.
unfoldable pub read_hex : ℕ → List ℕ → ℕ
read_hex acc [] = acc
read_hex acc (d ∷ ds) = read_hex (acc * 16 + d) ds

-- `b.toString(16).padStart(2, '0')` for each byte.
unfoldable pub byte_digits : Bytes → List ℕ
byte_digits [] = []
byte_digits (b ∷ bs) = b / 16 ∷ b % 16 ∷ byte_digits bs

unfoldable pub bytes32_to_bigint : Bytes → ℕ
bytes32_to_bigint bs = read_hex 0 (byte_digits bs)

-- The coordinates of a snarkjs proof, as numbers.
pub record Groth16Proof : Type 0 where
  pub a_x : ℕ
  pub a_y : ℕ
  pub b_x0 : ℕ
  pub b_x1 : ℕ
  pub b_y0 : ℕ
  pub b_y1 : ℕ
  pub c_x : ℕ
  pub c_y : ℕ

unfoldable pub proof_to_bytes : Groth16Proof → Bytes
proof_to_bytes p =
    let a = concat (bigint_to_bytes32_be p.a_x ∷ bigint_to_bytes32_be p.a_y ∷ []) in
    let b = concat (
      bigint_to_bytes32_be p.b_x1
      ∷ bigint_to_bytes32_be p.b_x0
      ∷ bigint_to_bytes32_be p.b_y1
      ∷ bigint_to_bytes32_be p.b_y0
      ∷ []) in
    let c = concat (bigint_to_bytes32_be p.c_x ∷ bigint_to_bytes32_be p.c_y ∷ []) in
    concat (a ∷ b ∷ c ∷ [])
