-- ===== src/Device/Screen/Colors.antt =====
-- src/devices/screen.c: the layers hold colors of the palette.
use buxn.Prelude.{
  ℕ, zero, suc, ◌+◌, ◌-◌, ◌*◌, ◌%◌, Bool, true, false, ◌&&◌, ltb, ◌<◌, if◌then◌else◌, u16, Bytes,
  update, arith, Bool-cases, inl, inr, List, [], ◌∷◌,
}
use buxn.Device.Screen.{
  Screen, mar, mar2, bit, put_pixel, draw_pixel, on_layer, blend_color, blending, element,
}
use buxn.Device.Screen.Layers.{SameBehind, layer_length, draw-SameBehind}
use buxn.Device.Screen.Sprites.{
  Mode, put_dot, draw_dots, draw_lines, draw_sprite, draw_sprites, next_place, Place, draw_port,
  mode_of,
}

-- Each pixel is an index of the palette, which has four colors.
abbrev pub InPalette : Bytes → Type 0
InPalette layer = (i : ℕ) → layer i < 4

abbrev AllBelow : List ℕ → Type 0
AllBelow [] = Unit {0}
AllBelow (b ∷ bs) = (b < 4) × AllBelow bs

element-lt : (bs : List ℕ) (i : ℕ) → AllBelow bs → element bs i < 4
element-lt [] i h = omega arith
element-lt (b ∷ bs) zero (h, hs) = h
element-lt (b ∷ bs) (suc i) (h, hs) = element-lt bs i hs

blending-Below : (color : ℕ) → AllBelow (blending color)
blending-Below zero = omega arith
blending-Below (suc zero) = omega arith
blending-Below (suc (suc zero)) = omega arith
blending-Below (suc (suc (suc color))) = omega arith

InPalette-update :
    (layer : Bytes) (ax color : ℕ) → InPalette layer → color < 4 → InPalette (update layer ax color)
InPalette-update layer ax color h hc i = ground (arith, h i, hc)

InPalette-if : (b : Bool) (f g : Bytes) → InPalette f → InPalette g → InPalette (if b then f else g)
InPalette-if true f g hf hg = hf
InPalette-if false f g hf hg = hg

InPalette-put_dot :
    (m : Mode) (color ax : ℕ) (layer : Bytes)
    → InPalette layer
    → InPalette (put_dot m color ax layer)
unfolding put_dot blend_color
InPalette-put_dot m color ax layer h =
    InPalette-if _ (update layer ax (element (blending color) m.blend)) layer
      (InPalette-update layer ax _ h (element-lt (blending color) m.blend (blending-Below color))) h

InPalette-draw_dots :
    (m : Mode) (ch1 ch2 rounds ax qx : ℕ) (layer : Bytes)
    → InPalette layer
    → InPalette (draw_dots m ch1 ch2 rounds ax qx layer)
unfolding draw_dots
InPalette-draw_dots m ch1 ch2 zero ax qx layer h = h
InPalette-draw_dots m ch1 ch2 (suc rounds) ax qx layer h =
    InPalette-draw_dots m ch1 ch2 rounds (ax + 1) _ _ (InPalette-put_dot m _ ax layer h)

InPalette-draw_lines :
    (m : Mode) (sprite : Bytes) (w xmar width rounds ay qy : ℕ) (layer : Bytes)
    → InPalette layer
    → InPalette (draw_lines m sprite w xmar width rounds ay qy layer)
unfolding draw_lines
InPalette-draw_lines m sprite w xmar width zero ay qy layer h = h
InPalette-draw_lines m sprite w xmar width (suc rounds) ay qy layer h =
    InPalette-draw_lines m sprite w xmar width rounds (ay + w) _ _
      (InPalette-draw_dots m _ _ width (xmar + ay) _ layer h)

InPalette-draw_sprite :
    (m : Mode) (width height : ℕ) (sprite : Bytes) (x y : ℕ) (layer : Bytes)
    → InPalette layer
    → InPalette (draw_sprite m width height sprite x y layer)
unfolding draw_sprite
InPalette-draw_sprite m width height sprite x y layer h =
    let xmar = u16 (mar x) in
    let rows = u16 (mar2 y) - u16 (mar y) in
    let columns = u16 (mar2 x) - xmar in
    let start = u16 (mar y) * mar2 width in
    let qy = if m.flip_y then 7 else 0 in
    InPalette-if (ltb xmar (mar width) && ltb (u16 (mar2 y)) (mar2 height))
      (draw_lines m sprite (mar2 width) xmar columns rows start qy layer) layer
      (InPalette-draw_lines m sprite (mar2 width) xmar columns rows start qy layer h) h

InPalette-draw_sprites :
    (m : Mode) (s : Screen) (memory : Bytes) (rounds : ℕ) (p : Place) (layer : Bytes)
    → InPalette layer
    → InPalette (draw_sprites m s memory rounds p layer).0
unfolding draw_sprites
InPalette-draw_sprites m s memory zero p layer h = h
InPalette-draw_sprites m s memory (suc rounds) p layer h =
    InPalette-draw_sprites m s memory rounds (next_place m s p) _
      (InPalette-draw_sprite m s.width s.height (λ i. memory (p.addr + i)) p.x p.y layer h)

InPalette-put_pixel :
    (rx ry len height color : ℕ) (layer : Bytes)
    → color < 4
    → InPalette layer
    → InPalette (put_pixel rx ry len height color layer)
unfolding put_pixel
InPalette-put_pixel rx ry len height color layer hc h =
    InPalette-if _ _ layer (InPalette-update layer _ color h hc) h

-- Both layers.
abbrev pub Drawn : Screen → Type 0
Drawn s = InPalette s.fg × InPalette s.bg

draw-Drawn :
    (memory : Bytes) (ctrl : ℕ) (s : Screen)
    → Drawn s
    → Drawn (draw_pixel ctrl s) × Drawn (draw_port memory ctrl s)
unfolding draw_pixel draw_port on_layer
draw-Drawn memory ctrl s (hf, hb) = elim (Bool-cases (bit 6 ctrl)) [
  | inl e ↦ rw e (
    (InPalette-put_pixel s.rx s.ry (mar2 s.width) s.height (ctrl % 4) s.fg (omega arith) hf, hb),
    (InPalette-draw_sprites (mode_of ctrl) s memory (s.rml + 1) _ s.fg hf, hb),
  )
  | inr e ↦ rw e (
    (hf, InPalette-put_pixel s.rx s.ry (mar2 s.width) s.height (ctrl % 4) s.bg (omega arith) hb),
    (hf, InPalette-draw_sprites (mode_of ctrl) s memory (s.rml + 1) _ s.bg hb),
  )
]

-- The pixels of both layers are in the palette, and nothing behind the layers has changed.
abbrev pub DrawnWithin : Screen → Screen → Type 0
DrawnWithin s t = Drawn t × SameBehind (layer_length s) s t

-- Whatever the position, the address, the modes and the memory, if each pixel of both layers is an
-- index of the palette, drawing a pixel or sprites leaves it so, and writes no byte behind the end
-- of the layers.
pub draw-DrawnWithin :
    (memory : Bytes) (ctrl : ℕ) (s : Screen)
    → Drawn s
    → DrawnWithin s (draw_pixel ctrl s) × DrawnWithin s (draw_port memory ctrl s)
draw-DrawnWithin memory ctrl s h =
    let d = draw-Drawn memory ctrl s h in
    let b = draw-SameBehind memory ctrl s in ((d.0, b.0), (d.1, b.1))
