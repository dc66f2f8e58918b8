-- ===== src/Device/System/Palette.antt =====
-- src/devices/system.c: the colours of the palette, and the exit code.
use buxn.Prelude.{
  refl, zero, suc, ◌-◌, ℕ, ◌+◌, ◌*◌, ◌/◌, ◌%◌, ◌<◌, ◌≡◌, true, arith, ◌==◌, ==_iff, table,
  table_row,
}
use buxn.Vm.State.{Vm, dev_load2}
use buxn.Device.System.{make_rgba, nibble, palette}

-- An opaque colour whose channels are the given nibbles, each written twice.
abbrev pub doubled : ℕ → ℕ → ℕ → ℕ
doubled r g b = 0xff000000 + b * 17 * 65536 + g * 17 * 256 + r * 17

colours :
    table 4096
      (λ x. make_rgba (x % 16) (x / 16 % 16) (x / 256) == doubled (x % 16) (x / 16 % 16) (x / 256))
    ≡ true
unfolding table make_rgba
colours = refl

pub make_rgba-doubled : (r g b : ℕ) → r < 16 → g < 16 → b < 16 → make_rgba r g b ≡ doubled r g b
make_rgba-doubled r g b hr hg hb =
    let x : ℕ = r + 16 * g + 256 * b in
    let row = table_row 4096 _ x colours (omega arith) in
    let at_x = (==_iff (make_rgba (x % 16) (x / 16 % 16) (x / 256)) _).0 row in
    let er : x % 16 ≡ r = omega arith in
    let eg : x / 16 % 16 ≡ g = omega arith in
    let eb : x / 256 ≡ b = omega arith in rw (er, eg, eb) at at_x

-- Each of the four colours is opaque, and its red, green and blue are the same nibble, counted from
-- the highest, of the shorts at 0x08, 0x0a and 0x0c, written twice.
pub palette-doubled :
    {W : Type 0} (vm : Vm W) (i : ℕ)
    → i < 4
    → palette vm i
      ≡ doubled
          (nibble (dev_load2 vm 0x08) (12 - 4 * i))
          (nibble (dev_load2 vm 0x0a) (12 - 4 * i))
          (nibble (dev_load2 vm 0x0c) (12 - 4 * i))
unfolding palette
palette-doubled vm zero h = make_rgba-doubled _ _ _ (omega arith) (omega arith) (omega arith)
palette-doubled vm (suc zero) h = make_rgba-doubled _ _ _ (omega arith) (omega arith) (omega arith)
palette-doubled vm (suc (suc zero)) h =
    make_rgba-doubled _ _ _ (omega arith) (omega arith) (omega arith)
palette-doubled vm (suc (suc (suc zero))) h =
    make_rgba-doubled _ _ _ (omega arith) (omega arith) (omega arith)
palette-doubled vm (suc (suc (suc (suc i)))) h = absurd (omega arith)
