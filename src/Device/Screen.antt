-- ===== src/Device/Screen.antt =====
-- src/devices/screen.c, include/buxn/devices/screen.h: the ports of position, address and movement,
-- and the drawing of pixels and sprites, without the fill mode, the renderer and the change of size.
pub mod Sprites
pub mod Layers
pub mod Colors
use buxn.Prelude.{
  ℕ, zero, suc, ◌+◌, ◌-◌, ◌*◌, ◌/◌, ◌%◌, ◌^◌, Bool, true, false, not, ◌&&◌, ◌||◌, ltb, leb, ◌==◌,
  if◌then◌else◌, u8, u16, u32, Bytes, update, short, List, [], ◌∷◌,
}

-- An `int` is the number below 2 ^ 32 that has its bits.
abbrev pub sltb : ℕ → ℕ → Bool
sltb a b = ltb (u32 (a + 0x80000000)) (u32 (b + 0x80000000))

-- `buxn_screen_rect_t`
pub record Rect : Type 0 where
  pub x1 : ℕ
  pub y1 : ℕ
  pub x2 : ℕ
  pub y2 : ℕ

-- `buxn_screen_t`
pub record Screen : Type 0 where
  pub rx : ℕ
  pub ry : ℕ
  pub ra : ℕ
  pub rmx : Bool
  pub rmy : Bool
  pub rma : Bool
  pub rml : ℕ
  pub width : ℕ
  pub height : ℕ
  pub fg_dirty_rect : Rect
  pub bg_dirty_rect : Rect
  pub fg : Bytes
  pub bg : Bytes

-- `MAR` and `MAR2`
abbrev pub mar : ℕ → ℕ
mar x = x + 8

abbrev pub mar2 : ℕ → ℕ
mar2 x = x + 16

-- `twos` of a short
unfoldable pub twos : ℕ → ℕ
twos v = if ltb v 0x8000 then v else v + 0xffff0000

-- `BUXN_BLENDING[color]`, by the blending mode.
abbrev pub blending : ℕ → List ℕ
blending zero = 0 ∷ 0 ∷ 0 ∷ 0 ∷ 1 ∷ 0 ∷ 1 ∷ 1 ∷ 2 ∷ 2 ∷ 0 ∷ 2 ∷ 3 ∷ 3 ∷ 3 ∷ 0 ∷ []
blending (suc zero) = 0 ∷ 1 ∷ 2 ∷ 3 ∷ 0 ∷ 1 ∷ 2 ∷ 3 ∷ 0 ∷ 1 ∷ 2 ∷ 3 ∷ 0 ∷ 1 ∷ 2 ∷ 3 ∷ []
blending (suc (suc zero)) = 1 ∷ 2 ∷ 3 ∷ 1 ∷ 1 ∷ 2 ∷ 3 ∷ 1 ∷ 1 ∷ 2 ∷ 3 ∷ 1 ∷ 1 ∷ 2 ∷ 3 ∷ 1 ∷ []
blending _ = 2 ∷ 3 ∷ 1 ∷ 2 ∷ 2 ∷ 3 ∷ 1 ∷ 2 ∷ 2 ∷ 3 ∷ 1 ∷ 2 ∷ 2 ∷ 3 ∷ 1 ∷ 2 ∷ []

abbrev pub element : List ℕ → ℕ → ℕ
element [] i = 0
element (b ∷ bs) zero = b
element (b ∷ bs) (suc i) = element bs i

unfoldable pub blend_color : ℕ → ℕ → ℕ
blend_color color blend = element (blending color) blend

unfoldable pub dirty : Rect → ℕ → ℕ → ℕ → ℕ → Rect
dirty rect x1 y1 x2 y2 = record {
  x1 = if sltb x1 rect.x1 then x1 else rect.x1;
  y1 = if sltb y1 rect.y1 then y1 else rect.y1;
  x2 = if sltb rect.x2 x2 then x2 else rect.x2;
  y2 = if sltb rect.y2 y2 then y2 else rect.y2;
}

-- The bits of a control byte.
abbrev pub bit : ℕ → ℕ → Bool
bit n v = v / 2 ^ n % 2 == 1

-- The ports 0x26 to 0x2d, with the device memory that has been written.
unfoldable pub screen_set : Bytes → ℕ → Screen → Screen
unfolding twos
screen_set dev address s =
    if address == 0x26
    then record s {
      rmx = bit 0 (dev 0x26);
      rmy = bit 1 (dev 0x26);
      rma = bit 2 (dev 0x26);
      rml = dev 0x26 / 16;
    }
    else if (address == 0x28) || (address == 0x29)
    then record s { rx = twos (short (dev 0x28) (dev 0x29)) }
    else if (address == 0x2a) || (address == 0x2b)
    then record s { ry = twos (short (dev 0x2a) (dev 0x2b)) }
    else if (address == 0x2c) || (address == 0x2d)
    then record s { ra = short (dev 0x2c) (dev 0x2d) }
    else s

-- `rDX` and `rDY`
abbrev pub step_of : Bool → ℕ
step_of b = if b then 8 else 0

-- The layer that a control byte selects, changed.
unfoldable pub on_layer : Bool → (Bytes → Bytes) → (Rect → Rect) → Screen → Screen
on_layer true f g s = record s { fg = f s.fg; fg_dirty_rect = g s.fg_dirty_rect }
on_layer false f g s = record s { bg = f s.bg; bg_dirty_rect = g s.bg_dirty_rect }

-- The write of the pixel mode, in a layer whose lines have `len` pixels.
unfoldable pub put_pixel : (rx ry len height color : ℕ) → Bytes → Bytes
put_pixel rx ry len height color layer =
    if ltb rx 0x80000000 && ltb ry 0x80000000 && ltb rx len && ltb ry height
    then update layer (mar rx + mar ry * len) color
    else layer

-- The pixel mode of the port 0x2e.
unfoldable pub draw_pixel : ℕ → Screen → Screen
unfolding put_pixel on_layer dirty
draw_pixel ctrl s =
    let t =
      on_layer (bit 6 ctrl) (put_pixel s.rx s.ry (mar2 s.width) s.height (ctrl % 4))
        (λ r. dirty r s.rx s.ry (u32 (s.rx + 1)) (u32 (s.ry + 1))) s in
    record t {
      rx = if s.rmx then u32 (s.rx + 1) else s.rx;
      ry = if s.rmy then u32 (s.ry + 1) else s.ry;
    }
