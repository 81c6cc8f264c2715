-- ===== src/Prelude/Bytes.antt =====
-- Byte strings: slices, and unsigned numbers in the two byte orders.
use native.Mathlib.Nat.{pow-suc}
use Prim.Native.Nat.{ℕ, zero, suc, ◌+◌, ◌-◌, ◌*◌, ◌/◌, ◌%◌, ◌^◌, ◌<◌}
use mathlib.Core.Path.{◌≡◌, refl, ap, ◌∙◌}
use mathlib.Core.Option.{some}
use mathlib.Core.List.{List, [], ◌∷◌, ◌++◌}
use mathlib.Core.Bool.{Bool, true, false, ◌&&◌}
use native.Mathlib.Omega.{arith}
use skaus.Prelude.Tests.{◌==◌}
use skaus.Prelude.Lists.{
  length, take, drop, get_elem?, take-append, drop-append, drop-drop, length-append,
}

abbrev pub Bytes : Type 0
Bytes = List ℕ

-- `subarray(from, to)`.
abbrev pub slice : ℕ → ℕ → Bytes → Bytes
slice from to xs = take (to - from) (drop from xs)

-- The `n` low bytes of a number, the lowest first.
unfoldable pub le_bytes : ℕ → ℕ → Bytes
le_bytes zero v = []
le_bytes (suc n) v = v % 256 ∷ le_bytes n (v / 256)

unfoldable pub of_le : Bytes → ℕ
of_le [] = 0
of_le (b ∷ bs) = b + 256 * of_le bs

pub length-le_bytes : (n v : ℕ) → length (le_bytes n v) ≡ n
unfolding le_bytes
length-le_bytes zero v = refl
length-le_bytes (suc n) v = ap suc (length-le_bytes n (v / 256))

pub of_le-le_bytes : (n v : ℕ) → v < 256 ^ n → of_le (le_bytes n v) ≡ v
unfolding of_le le_bytes
of_le-le_bytes zero v h = omega arith
of_le-le_bytes (suc n) v h =
    let below : v < 256 ^ n * 256 = rw (← pow-suc 256 n) h in
    omega (arith, of_le-le_bytes n (v / 256) (omega arith))

-- `Buffer.concat`.
abbrev pub concat : List Bytes → Bytes
concat [] = []
concat (x ∷ xs) = x ++ concat xs

-- A reader of fields of fixed sizes, one after the other.
abbrev pub cut : List ℕ → Bytes → List Bytes
cut [] xs = []
cut (n ∷ ns) xs = take n xs ∷ cut ns (drop n xs)

abbrev pub HaveSizes : List ℕ → List Bytes → Type 0
HaveSizes [] [] = Unit {0}
HaveSizes (n ∷ ns) (x ∷ xs) = (length x ≡ n) × HaveSizes ns xs
HaveSizes [] (_ ∷ _) = ⊥
HaveSizes (_ ∷ _) [] = ⊥

abbrev pub sum : List ℕ → ℕ
sum [] = 0
sum (n ∷ ns) = n + sum ns

-- Fields of the sizes that are read are read as they were written.
pub cut-concat : (ns : List ℕ) (xs : List Bytes) → HaveSizes ns xs → cut ns (concat xs) ≡ xs
cut-concat [] [] h = refl
cut-concat (n ∷ ns) (x ∷ xs) (e, h) =
    rw (take-append n x (concat xs) e, drop-append n x (concat xs) e, cut-concat ns xs h)
cut-concat [] (x ∷ xs) h = absurd h
cut-concat (n ∷ ns) [] h = absurd h

pub length-concat : (ns : List ℕ) (xs : List Bytes) → HaveSizes ns xs → length (concat xs) ≡ sum ns
length-concat [] [] h = refl
length-concat (n ∷ ns) (x ∷ xs) (e, h) =
    omega (arith, length-append x (concat xs), length-concat ns xs h)
length-concat [] (x ∷ xs) h = absurd h
length-concat (n ∷ ns) [] h = absurd h

-- The field behind the first ones stands at the offset that their sizes add up to.
pub drop-concat :
    (ns : List ℕ) (xs : List Bytes) (ys : Bytes)
    → HaveSizes ns xs
    → drop (sum ns) (concat xs ++ ys) ≡ ys
drop-concat ns xs ys h = drop-append (sum ns) (concat xs) ys (length-concat ns xs h)

-- Behind a field that stands at an offset comes the rest.
pub next :
    (a n b : ℕ) (account field rest : Bytes)
    → a + n ≡ b
    → length field ≡ n
    → drop a account ≡ field ++ rest
    → drop b account ≡ rest
next a n b account field rest e h d =
    drop-drop a n b account e ∙ ap (drop n) d ∙ drop-append n field rest h

pub slice-field :
    (a n b : ℕ) (account field rest : Bytes)
    → a + n ≡ b
    → length field ≡ n
    → drop a account ≡ field ++ rest
    → slice a b account ≡ field
slice-field a n b account field rest e h d =
    let width : b - a ≡ n = omega arith in rw (width, d) (take-append n field rest h)

-- The byte at an offset.
pub get_elem?-drop : (n b : ℕ) (xs rest : Bytes) → drop n xs ≡ b ∷ rest → get_elem? xs n ≡ some b
get_elem?-drop zero b [] rest d = cc
get_elem?-drop zero b (x ∷ xs) rest d = cc
get_elem?-drop (suc n) b [] rest d = cc
get_elem?-drop (suc n) b (x ∷ xs) rest d = get_elem?-drop n b xs rest d

-- Equality of two texts, as their characters' codes.
unfoldable pub same_text : Bytes → Bytes → Bool
same_text [] [] = true
same_text [] (b ∷ bs) = false
same_text (a ∷ as') [] = false
same_text (a ∷ as') (b ∷ bs) = a == b && same_text as' bs

pub same_text_refl : (xs : Bytes) → same_text xs xs ≡ true
unfolding same_text
same_text_refl [] = refl
same_text_refl (x ∷ xs) = ground (arith, same_text_refl xs)
