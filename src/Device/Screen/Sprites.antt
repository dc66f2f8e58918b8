-- ===== src/Device/Screen/Sprites.antt =====
-- src/devices/screen.c: the sprites, port 0x2f.
use buxn.Prelude.{
  ℕ, zero, suc, ◌+◌, ◌-◌, ◌*◌, ◌/◌, ◌%◌, ◌^◌, Bool, not, ◌&&◌, ◌||◌, ltb, ◌==◌, if◌then◌else◌, u16,
  u32, Bytes, update,
}
use buxn.Device.Screen.{Screen, mar, mar2, blend_color, dirty, bit, step_of, on_layer}

-- What the control byte says of a sprite.
pub record Mode : Type 0 where
  pub blend : ℕ
  pub flip_x : Bool
  pub flip_y : Bool
  pub two_bits : Bool

unfoldable pub mode_of : ℕ → Mode
mode_of ctrl = record {
  blend = ctrl % 16;
  flip_x = bit 4 ctrl;
  flip_y = bit 5 ctrl;
  two_bits = bit 7 ctrl;
}

abbrev pub bit_value : ℕ → ℕ → ℕ
bit_value qx ch = ch / 2 ^ qx % 2

-- The color of a dot, from one byte of the line or from two.
unfoldable pub dot_color : Bool → (ch1 ch2 qx : ℕ) → ℕ
dot_color two_bits ch1 ch2 qx = bit_value qx ch1 + (if two_bits then 2 * bit_value qx ch2 else 0)

unfoldable pub put_dot : Mode → (color ax : ℕ) → Bytes → Bytes
unfolding blend_color
put_dot m color ax layer =
    if not (m.blend % 5 == 0) || ltb 0 color
    then update layer ax (blend_color color m.blend)
    else layer

-- The dots of a line; `rounds` is `bx - ax`, or 0 where that is negative.
unfoldable pub draw_dots : Mode → (ch1 ch2 : ℕ) → (rounds ax qx : ℕ) → Bytes → Bytes
unfolding dot_color put_dot
draw_dots m ch1 ch2 zero ax qx layer = layer
draw_dots m ch1 ch2 (suc rounds) ax qx layer =
    draw_dots m ch1 ch2 rounds (ax + 1) (if m.flip_x then qx + 1 else qx - 1)
      (put_dot m (dot_color m.two_bits ch1 ch2 qx) ax layer)

-- The lines of a sprite: `ay` goes from `ymar * wmar2` to `ymar2 * wmar2` by `wmar2`.
unfoldable pub draw_lines :
    Mode → (sprite : Bytes) → (wmar2 xmar width : ℕ) → (rounds ay qy : ℕ) → Bytes → Bytes
unfolding draw_dots
draw_lines m sprite wmar2 xmar width zero ay qy layer = layer
draw_lines m sprite wmar2 xmar width (suc rounds) ay qy layer =
    draw_lines m sprite wmar2 xmar width rounds (ay + wmar2) (if m.flip_y then qy - 1 else qy + 1) (
      draw_dots m (sprite qy) (sprite (qy + 8)) width (xmar + ay) (if m.flip_x then 0 else 7) layer)

-- One sprite at a position, if it is on the layer.
unfoldable pub draw_sprite :
    Mode → (width height : ℕ) → (sprite : Bytes) → (x y : ℕ) → Bytes → Bytes
unfolding draw_lines
draw_sprite m width height sprite x y layer =
    let xmar = u16 (mar x) in
    let ymar = u16 (mar y) in
    let xmar2 = u16 (mar2 x) in
    let ymar2 = u16 (mar2 y) in
    if ltb xmar (mar width) && ltb ymar2 (mar2 height)
    then draw_lines m sprite (mar2 width) xmar (xmar2 - xmar) (ymar2 - ymar) (ymar * mar2 width)
        (if m.flip_y then 7 else 0) layer
    else layer

-- `f * d`, where f is 1 or -1.
abbrev pub signed_step : Bool → Bool → ℕ
signed_step flip moves = if flip then u32 (0x100000000 - step_of moves) else step_of moves

-- Where a sprite is drawn, and the address of its bytes.
pub record Place : Type 0 where
  pub x : ℕ
  pub y : ℕ
  pub addr : ℕ

unfoldable pub next_place : Mode → Screen → Place → Place
next_place m s p = record {
  x = u32 (p.x + signed_step m.flip_x s.rmy);
  y = u32 (p.y + signed_step m.flip_y s.rmx);
  addr = u32 (p.addr + (if s.rma then (if m.two_bits then 16 else 8) else 0));
}

-- The sprites from a place on, with the layer and the place behind them.
unfoldable pub draw_sprites :
    Mode → Screen → (memory : Bytes) → (rounds : ℕ) → Place → Bytes → Bytes × Place
unfolding draw_sprite next_place
draw_sprites m s memory zero p layer = (layer, p)
draw_sprites m s memory (suc rounds) p layer =
    draw_sprites m s memory rounds (next_place m s p)
      (draw_sprite m s.width s.height (λ i. memory (p.addr + i)) p.x p.y layer)

abbrev pub selected : Bool → Screen → Bytes
selected foreground s = if foreground then s.fg else s.bg

-- The port 0x2f, with the memory of the machine.
unfoldable pub draw_port : (memory : Bytes) → ℕ → Screen → Screen
unfolding mode_of draw_sprites on_layer dirty
draw_port memory ctrl s =
    let m = mode_of ctrl in
    let r =
      draw_sprites m s memory (s.rml + 1) record { x = s.rx; y = s.ry; addr = s.ra }
        (selected (bit 6 ctrl) s) in
    let x = (r.1).x in
    let y = (r.1).y in
    let x1 = if m.flip_x then x else s.rx in
    let x2 = if m.flip_x then s.rx else x in
    let y1 = if m.flip_y then y else s.ry in
    let y2 = if m.flip_y then s.ry else y in
    let t =
      on_layer (bit 6 ctrl) (λ layer. r.0)
        (λ rect.
          dirty rect (u32 (x1 + 0xfffffff8)) (u32 (y1 + 0xfffffff8)) (u32 (x2 + 8)) (u32 (y2 + 8)))
        s in
    record t {
      ra = (r.1).addr;
      rx = if s.rmx then u32 (s.rx + signed_step m.flip_x s.rmx) else s.rx;
      ry = if s.rmy then u32 (s.ry + signed_step m.flip_y s.rmy) else s.ry;
    }
