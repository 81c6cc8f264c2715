-- ===== src/Names/Validity/Laws.antt =====
-- The three checks of a name agree on the names that they accept.
use Prim.Native.Char.{Char, code}
use skaus.Prelude.{
  ℕ, ◌+◌, ◌/◌, ◌≤◌, ◌<◌, ◌≡◌, refl, ◌∙◌, sym, ◌↔◌, ◌≢◌, lt→ltb, ◌⊎◌, inl, inr, String, true, false,
  ◌&&◌, [], ◌∷◌, ◌++◌, length, Bool-cases, arith,
}
use skaus.Prelude.Bytes.{Bytes}
use skaus.Names.Validity.{
  accepted, reserved, utf8_char, utf8, utf16_length, is_name_byte, all_name_chars, all_name_bytes,
  has_bad_prefix, has_bad_first_byte, validate_name, validate_name_on_chain, is_valid_name,
}

is_name_byte-high : (n : ℕ) → 128 ≤ n → is_name_byte n ≡ false
unfolding is_name_byte
is_name_byte-high n h = ground arith

is_name_byte→low : (n : ℕ) → is_name_byte n ≡ true → n < 128
unfolding is_name_byte
is_name_byte→low n h = ground arith

all_name_bytes-append :
    (xs ys : Bytes) → all_name_bytes (xs ++ ys) ≡ (all_name_bytes xs && all_name_bytes ys)
unfolding all_name_bytes
all_name_bytes-append [] ys = refl
all_name_bytes-append (x ∷ xs) ys = rw (all_name_bytes-append xs ys) (ground arith)

-- A character above ASCII starts with a byte that no name has.
all_name_bytes-utf8_char : (c : Char) → all_name_bytes (utf8_char c) ≡ is_name_byte (code c)
unfolding utf8_char all_name_bytes
all_name_bytes-utf8_char c = ground (
  arith,
  is_name_byte-high (code c),
  is_name_byte-high (192 + code c / 64),
  is_name_byte-high (224 + code c / 4096),
  is_name_byte-high (240 + code c / 262144),
)

all_name_bytes-utf8 : (s : String) → all_name_bytes (utf8 s) ≡ all_name_chars s
unfolding utf8 all_name_chars all_name_bytes
all_name_bytes-utf8 String.[] = refl
all_name_bytes-utf8 (String.◌∷◌ c s) =
    all_name_bytes-append (utf8_char c) (utf8 s)
    ∙ rw (all_name_bytes-utf8_char c, all_name_bytes-utf8 s) refl

-- A character of a name is one byte, and one unit of 16 bits.
utf8_char-name : (c : Char) → is_name_byte (code c) ≡ true → utf8_char c ≡ code c ∷ []
unfolding utf8_char
utf8_char-name c h = ground (arith, is_name_byte→low (code c))

length-utf8 : (s : String) → all_name_chars s ≡ true → length (utf8 s) ≡ utf16_length s
unfolding utf8 all_name_chars utf16_length
length-utf8 String.[] h = refl
length-utf8 (String.◌∷◌ c s) h =
    let k : is_name_byte (code c) ≡ true = ground arith in
    let below : code c < 65536 = omega (arith, is_name_byte→low (code c) k) in
    let t : all_name_chars s ≡ true = ground arith in
    rw (utf8_char-name c k, lt→ltb (code c) 65536 below) (omega (arith, length-utf8 s t))

first_byte-name :
    (s : String) → all_name_chars s ≡ true → has_bad_first_byte (utf8 s) ≡ has_bad_prefix s
unfolding utf8 all_name_chars has_bad_first_byte has_bad_prefix
first_byte-name String.[] h = refl
first_byte-name (String.◌∷◌ c s) h =
    let k : is_name_byte (code c) ≡ true = ground arith in rw (utf8_char-name c k) refl

-- A name with only the characters of names gets one verdict from the program and from the client.
validate_name_on_chain-name :
    (s : String) → all_name_chars s ≡ true → validate_name_on_chain s ≡ validate_name s
unfolding validate_name_on_chain validate_name
validate_name_on_chain-name s h =
    rw (all_name_bytes-utf8 s, length-utf8 s h, first_byte-name s h) refl

refused : (s : String) → all_name_chars s ≡ false → validate_name s ≢ accepted
unfolding validate_name
refused s e = ground arith

refused_on_chain : (s : String) → all_name_chars s ≡ false → validate_name_on_chain s ≢ accepted
unfolding validate_name_on_chain
refused_on_chain s e =
    let k : all_name_bytes (utf8 s) ≡ false = all_name_bytes-utf8 s ∙ e in ground arith

-- The program accepts a name exactly if the client's check accepts it.
pub validate_name-validate_name_on_chain :
    (s : String) → (validate_name_on_chain s ≡ accepted) ↔ (validate_name s ≡ accepted)
validate_name-validate_name_on_chain s = elim (Bool-cases (all_name_chars s)) [
  | inl e ↦
      (λ h. sym (validate_name_on_chain-name s e) ∙ h, λ h. validate_name_on_chain-name s e ∙ h)
  | inr e ↦ (λ h. absurd (refused_on_chain s e h), λ h. absurd (refused s e h))
]

-- The gateway's check passes exactly the names that the client's check accepts or finds reserved.
is_valid_name-validate_name :
    (s : String)
    → (is_valid_name s ≡ true) ↔ (validate_name s ≡ accepted ⊎ validate_name s ≡ reserved)
unfolding is_valid_name validate_name
is_valid_name-validate_name s = ground arith
