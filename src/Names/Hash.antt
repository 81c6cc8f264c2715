-- ===== src/Names/Hash.antt =====
-- `hashName` of packages/crypto/src/name-registry.ts, which the gateway's resolver and route of
-- registration repeat, and `verify_name_hash` of programs/name-registry/src/utils/validation.rs. The
-- Poseidon hash and the conversion to lower case are arguments.
pub mod Laws
use skaus.Prelude.{
  ℕ, zero, suc, ◌+◌, ◌-◌, ◌*◌, ◌^◌, String, Bool, List, [], ◌∷◌, ◌++◌, map, length, take, drop,
  replicate,
}
use skaus.Prelude.Bytes.{Bytes}
use skaus.Requests.Slug.{trim_start, trim_end}
use skaus.Withdraw.Hex.{bigint_to_bytes32_be}
use skaus.Names.Validity.{utf8}

-- `name.toLowerCase().trim()`
unfoldable pub normalize : (String → String) → String → String
normalize lower name = trim_end (trim_start (lower name))

-- The slices of 31 bytes; the fuel bounds their number.
unfoldable pub slices : ℕ → Bytes → List Bytes
slices zero bytes = []
slices (suc fuel) [] = []
slices (suc fuel) (b ∷ bytes) = take 31 (b ∷ bytes) ∷ slices fuel (drop 31 (b ∷ bytes))

-- `val |= BigInt(nameBytes[i + j]) << BigInt(j * 8)`, for `j` from a position on: the bits are free.
unfoldable pub pack : ℕ → ℕ → Bytes → ℕ
pack j val [] = val
pack j val (b ∷ bytes) = pack (suc j) (val + b * 256 ^ j) bytes

unfoldable pub name_chunks : Bytes → List ℕ
name_chunks bytes = map (pack 0 0) (slices (length bytes) bytes)

unfoldable pub hash_name : (String → String) → (List ℕ → ℕ) → String → Bytes
hash_name lower poseidon name =
    bigint_to_bytes32_be (poseidon (name_chunks (utf8 (normalize lower name))))

-- The program's element: `be[31 - j] = b` in 32 zeros.
unfoldable pub set_byte : ℕ → ℕ → Bytes → Bytes
set_byte i b [] = []
set_byte zero b (x ∷ xs) = b ∷ xs
set_byte (suc i) b (x ∷ xs) = x ∷ set_byte i b xs

unfoldable pub fill_element : ℕ → Bytes → Bytes → Bytes
fill_element j be [] = be
fill_element j be (b ∷ bytes) = fill_element (suc j) (set_byte (31 - j) b be) bytes

unfoldable pub name_elements : Bytes → List Bytes
name_elements bytes = map (fill_element 0 (replicate 32 0)) (slices (length bytes) bytes)

-- Whether the program takes the hash that it is given; `hashv` is the chain's own Poseidon hash.
unfoldable pub verify_name_hash :
    (List Bytes → Bytes) → (Bytes → Bytes → Bool) → String → Bytes → Bool
verify_name_hash hashv equals name provided = equals (hashv (name_elements (utf8 name))) provided
