-- ===== src/Device/Buttons/Bits.antt =====
-- include/buxn/devices/controller.h and mouse.h: setting one button and reading any.
use buxn.Prelude.{
  inr, inl, Bool-cases, ℕ, ◌+◌, ◌*◌, ◌/◌, ◌%◌, ◌<◌, ◌≡◌, refl, Bool, true, false, arith, ◌&&◌, ◌==◌,
  ==_iff, not, if◌then◌else◌, table, table_row, bit_and, u8, ◌^◌,
}
use buxn.Device.Buttons.{
  set_bit, Mouse, mouse_set_button, mouse_check_button, Controller, controller_set_button,
}

-- Bit `j` of a byte.
abbrev pub bit : ℕ → ℕ → Bool
bit state j = not (bit_and state (u8 (2 ^ j)) == 0)

abbrev same_bool : Bool → Bool → Bool
same_bool true b = b
same_bool false b = not b

abbrev as_bool : ℕ → Bool
as_bool n = not (n == 0)

abbrev row_test : ℕ → ℕ → ℕ → Bool → Bool
row_test state i j down =
    same_bool (bit (set_bit state i down) j) (if i == j then down else bit state j)

-- Every byte, button set and button read, pressed and released.
all_rows :
    table 16384 (λ x.
      row_test (x % 256) (x / 256 % 8) (x / 2048) true
      && row_test (x % 256) (x / 256 % 8) (x / 2048) false)
    ≡ true
unfolding table set_bit
all_rows = refl

same_bool_lem : (a b : Bool) → same_bool a b ≡ true → a ≡ b
same_bool_lem a b h = ground arith

and_lem : (a b : Bool) → (a && b) ≡ true → (a ≡ true) × (b ≡ true)
and_lem a b h = ground arith

pick_row :
    (state i j : ℕ) (down : Bool)
    → (row_test state i j true && row_test state i j false) ≡ true
    → row_test state i j down ≡ true
pick_row state i j true h = (and_lem _ _ h).0
pick_row state i j false h = (and_lem _ _ h).1

bit-set_bit :
    (state i j : ℕ) (down : Bool)
    → state < 256
    → i < 8
    → j < 8
    → bit (set_bit state i down) j ≡ (if i == j then down else bit state j)
bit-set_bit state i j down hs hi hj =
    let x : ℕ = state + 256 * i + 2048 * j in
    let row = table_row 16384 _ x all_rows (omega arith) in
    let es : x % 256 ≡ state = omega arith in
    let ei : x / 256 % 8 ≡ i = omega arith in
    let ej : x / 2048 ≡ j = omega arith in
    same_bool_lem _ _ (pick_row state i j down (rw (es, ei, ej) at row))

-- A mouse button that was pressed or released reads as such, and the other seven read as before.
pub mouse_check_button-mouse_set_button :
    (device : Mouse) (i j : ℕ) (down : Bool)
    → device.state < 256
    → i < 8
    → j < 8
    → mouse_check_button (mouse_set_button device i down) j
      ≡ (if i == j then down else mouse_check_button device j)
unfolding mouse_check_button mouse_set_button
mouse_check_button-mouse_set_button device i j down hs hi hj =
    bit-set_bit device.state i j down hs hi hj

-- Setting a button of one controller decides the bit of that button in that controller's byte, and
-- leaves its other seven buttons and the other controllers as they were.
pub controller_set_button_lem :
    (device : Controller) (index other i j : ℕ) (down : Bool)
    → device.buttons index < 256
    → i < 8
    → j < 8
    → bit ((controller_set_button device index i down).buttons other) j
      ≡ (if other == index && i == j then down else bit (device.buttons other) j)
unfolding controller_set_button
controller_set_button_lem device index other i j down hs hi hj =
    elim (Bool-cases (other == index)) [
      | inl e ↦
          let e' : other ≡ index = (==_iff other index).0 e in
          rw (e, e') (bit-set_bit (device.buttons index) i j down hs hi hj)
      | inr e ↦ rw e refl
    ]
