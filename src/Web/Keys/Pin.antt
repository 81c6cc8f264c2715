-- ===== src/Web/Keys/Pin.antt =====
-- The cells of a PIN under the keys that are pressed.
use skaus.Prelude.{
  ℕ, zero, suc, ◌+◌, ◌-◌, ◌≡◌, refl, Bool, true, ◌&&◌, List, [], ◌∷◌, leb, ltb, ◌==◌, length,
  get_elem?, All, inl, inr, Bool-cases, arith,
}
use skaus.Prelude.Bytes.{Bytes, concat}
use skaus.Web.Keys.{
  all_digits, last_char, set_cell, empty_pin, handle_pin_input, is_empty_cell, handle_pin_key_down,
  pin_complete,
}

-- A cell is empty or has one digit.
abbrev pub IsCell : Bytes → Type 0
IsCell [] = Unit {0}
IsCell (c ∷ []) = (leb 48 c && leb c 57) ≡ true
IsCell (c ∷ d ∷ cs) = ⊥

-- What can be typed, from the empty cells on.
pub data Typed : List Bytes → Type 0 where
  untouched : Typed empty_pin
  input :
      {pin : List Bytes} (i : ℕ) (value : Bytes) → Typed pin → Typed (handle_pin_input i value pin)
  key_down :
      {pin : List Bytes} (i : ℕ) (backspace : Bool)
      → Typed pin
      → Typed (handle_pin_key_down i backspace pin)

abbrev pub empty_cells : List Bytes → ℕ
empty_cells [] = 0
empty_cells ([] ∷ pin) = suc (empty_cells pin)
empty_cells ((c ∷ cs) ∷ pin) = empty_cells pin

last_char-IsCell : (value : Bytes) → all_digits value ≡ true → IsCell (last_char value)
unfolding all_digits last_char
last_char-IsCell [] h = tt
last_char-IsCell (c ∷ []) h = ground arith
last_char-IsCell (c ∷ d ∷ cs) h =
    let rest : all_digits (d ∷ cs) ≡ true = ground arith in last_char-IsCell (d ∷ cs) rest

set_cell-IsCell :
    (i : ℕ) (value : Bytes) (pin : List Bytes)
    → IsCell value
    → All IsCell pin
    → All IsCell (set_cell i value pin)
unfolding set_cell
set_cell-IsCell i value [] v h = tt
set_cell-IsCell zero value (x ∷ xs) v (hx, h) = (v, h)
set_cell-IsCell (suc i) value (x ∷ xs) v (hx, h) = (hx, set_cell-IsCell i value xs v h)

length-set_cell :
    (i : ℕ) (value : Bytes) (pin : List Bytes) → length (set_cell i value pin) ≡ length pin
unfolding set_cell
length-set_cell i value [] = refl
length-set_cell zero value (x ∷ xs) = refl
length-set_cell (suc i) value (x ∷ xs) = omega (arith, length-set_cell i value xs)

length-concat_cells :
    (pin : List Bytes) → All IsCell pin → length (concat pin) + empty_cells pin ≡ length pin
length-concat_cells [] h = refl
length-concat_cells ([] ∷ pin) (hx, h) = omega (arith, length-concat_cells pin h)
length-concat_cells ((c ∷ []) ∷ pin) (hx, h) = omega (arith, length-concat_cells pin h)
length-concat_cells ((c ∷ d ∷ cs) ∷ pin) (hx, h) = absurd hx

Typed-cells : {pin : List Bytes} → Typed pin → (length pin ≡ 6) × All IsCell pin
unfolding handle_pin_input handle_pin_key_down
Typed-cells untouched = (refl, (tt, (tt, (tt, (tt, (tt, (tt, tt)))))))
Typed-cells (input {pin = pin} i value t) =
    let (size, cells) = Typed-cells t in
    elim (Bool-cases (all_digits value)) [
      | inl d ↦
          rw (d, length-set_cell i (last_char value) pin)
            (size, set_cell-IsCell i (last_char value) pin (last_char-IsCell value d) cells)
      | inr d ↦ rw d (size, cells)
    ]
Typed-cells (key_down {pin = pin} i backspace t) =
    let (size, cells) = Typed-cells t in
    elim (Bool-cases (backspace && is_empty_cell (get_elem? pin i) && ltb 0 i)) [
      | inl d ↦
          rw (d, length-set_cell (i - 1) [] pin) (size, set_cell-IsCell (i - 1) [] pin tt cells)
      | inr d ↦ rw d (size, cells)
    ]

-- Whatever is typed, from the empty cells on, there are six cells, each is empty or has one digit, and
-- the PIN counts as complete exactly if no cell is empty.
pub Typed-IsPin :
    (pin : List Bytes)
    → Typed pin
    → (length pin ≡ 6) × All IsCell pin × (pin_complete pin ≡ (empty_cells pin == 0))
unfolding pin_complete
Typed-IsPin pin t =
    let (size, cells) = Typed-cells t in
    (size, cells, ground (arith, length-concat_cells pin cells, size))
