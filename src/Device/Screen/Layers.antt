-- ===== src/Device/Screen/Layers.antt =====
-- src/devices/screen.c: pixels and sprites are drawn within the layers.
use buxn.Prelude.{
  ℕ, zero, suc, ◌+◌, ◌-◌, ◌*◌, ◌%◌, ◌&&◌, ltb, leb, ◌≡◌, ◌∙◌, ◌≤◌, ◌<◌, u16, Bytes, update_ne, refl,
  ap, arith, Bool-cases, inl, inr,
}
use native.Mathlib.Nat.{suc-mul}
use mathlib.Core.Logic.{◌≢◌}
use buxn.Device.Screen.{Screen, mar, mar2, bit, put_pixel, draw_pixel, on_layer}
use buxn.Device.Screen.Sprites.{
  Mode, put_dot, draw_dots, draw_lines, draw_sprite, draw_sprites, next_place, Place, draw_port,
  mode_of,
}

-- `length` of `buxn_screen_resize`: the pixels of a layer, with the margin.
abbrev pub layer_length : Screen → ℕ
layer_length s = mar2 s.width * mar2 s.height

put_dot-outside :
    (m : Mode) (color ax i : ℕ) (layer : Bytes) → ax < i → put_dot m color ax layer i ≡ layer i
unfolding put_dot
put_dot-outside m color ax i layer h = ground (arith, h)

draw_dots-outside :
    (m : Mode) (ch1 ch2 rounds ax qx i : ℕ) (layer : Bytes)
    → ax + rounds ≤ i
    → draw_dots m ch1 ch2 rounds ax qx layer i ≡ layer i
unfolding draw_dots
draw_dots-outside m ch1 ch2 zero ax qx i layer h = refl
draw_dots-outside m ch1 ch2 (suc rounds) ax qx i layer h =
    draw_dots-outside m ch1 ch2 rounds (ax + 1) _ i _ (omega (arith, h))
    ∙ put_dot-outside m _ ax i layer (omega (arith, h))

draw_lines-outside :
    (m : Mode) (sprite : Bytes) (w xmar width rounds ay qy i : ℕ) (layer : Bytes)
    → xmar + width ≤ w
    → ay + rounds * w ≤ i
    → draw_lines m sprite w xmar width rounds ay qy layer i ≡ layer i
unfolding draw_lines
draw_lines-outside m sprite w xmar width zero ay qy i layer hx h = refl
draw_lines-outside m sprite w xmar width (suc rounds) ay qy i layer hx h =
    let k = suc-mul rounds w in
    draw_lines-outside m sprite w xmar width rounds (ay + w) _ i _ hx (omega (arith, h, k))
    ∙ draw_dots-outside m _ _ width (xmar + ay) _ i layer (omega (arith, h, k, hx))

-- The position of a line that is drawn.
lines_end :
    (ymar ymar2 w height i : ℕ)
    → ymar ≤ ymar2
    → ymar2 < height
    → w * height ≤ i
    → ymar * w + (ymar2 - ymar) * w ≤ i
lines_end ymar ymar2 w height i h k l =
    let e : height ≡ ymar + (ymar2 - ymar) + (height - ymar2) = omega (arith, h, k) in
    omega (arith, ap (λ (t : ℕ). w * t) e, l)

no_lines :
    (m : Mode) (sprite : Bytes) (w xmar width ay qy i : ℕ) (layer : Bytes)
    → draw_lines m sprite w xmar width 0 ay qy layer i ≡ layer i
unfolding draw_lines
no_lines m sprite w xmar width ay qy i layer = refl

narrow :
    (x width : ℕ)
    → u16 (mar x) < mar width
    → u16 (mar x) + (u16 (mar2 x) - u16 (mar x)) ≤ mar2 width
narrow x width h = omega (arith, h)

pixel_end :
    (rx ry width height i : ℕ)
    → rx < mar2 width
    → ry < height
    → mar2 width * mar2 height ≤ i
    → i ≢ mar rx + mar ry * mar2 width
pixel_end rx ry width height i hx hy h q =
    let e : height ≡ ry + 1 + (height - ry - 1) = omega (arith, hy) in
    omega (arith, ap (λ (t : ℕ). (width + 16) * t) e, h, hx, q)

-- The lines of a sprite that begins at `ymar` and ends before `ymar2`, none if that is smaller.
lines-outside :
    (m : Mode) (sprite : Bytes) (w xmar width ymar ymar2 height qy i : ℕ) (layer : Bytes)
    → xmar + width ≤ w
    → ymar2 < height
    → w * height ≤ i
    → draw_lines m sprite w xmar width (ymar2 - ymar) (ymar * w) qy layer i ≡ layer i
lines-outside m sprite w xmar width ymar ymar2 height qy i layer hx hy h =
    elim (Bool-cases (leb ymar ymar2)) [
      | inl e ↦
          draw_lines-outside m sprite w xmar width (ymar2 - ymar) (ymar * w) qy i layer hx
            (lines_end ymar ymar2 w height i (ground (arith, e)) hy h)
      | inr e ↦
          let z : ymar2 - ymar ≡ 0 = ground (arith, e) in
          ap (λ n. draw_lines m sprite w xmar width n (ymar * w) qy layer i) z
          ∙ no_lines m sprite w xmar width (ymar * w) qy i layer
    ]

draw_sprite-outside :
    (m : Mode) (width height x y i : ℕ) (sprite layer : Bytes)
    → mar2 width * mar2 height ≤ i
    → draw_sprite m width height sprite x y layer i ≡ layer i
unfolding draw_sprite
draw_sprite-outside m width height x y i sprite layer h =
    elim (Bool-cases (ltb (u16 (mar x)) (mar width) && ltb (u16 (mar2 y)) (mar2 height))) [
      | inr e ↦ rw e refl
      | inl e ↦ rw e (
          lines-outside m sprite (mar2 width) (u16 (mar x)) (u16 (mar2 x) - u16 (mar x))
            (u16 (mar y)) (u16 (mar2 y)) (mar2 height) _ i layer
            (narrow x width (ground (arith, e))) (ground (arith, e)) h)
    ]

draw_sprites-outside :
    (m : Mode) (s : Screen) (memory : Bytes) (rounds : ℕ) (p : Place) (i : ℕ) (layer : Bytes)
    → layer_length s ≤ i
    → (draw_sprites m s memory rounds p layer).0 i ≡ layer i
unfolding draw_sprites
draw_sprites-outside m s memory zero p i layer h = refl
draw_sprites-outside m s memory (suc rounds) p i layer h =
    draw_sprites-outside m s memory rounds (next_place m s p) i _ h
    ∙ draw_sprite-outside m s.width s.height p.x p.y i _ layer h

put_pixel-outside :
    (rx ry width height color i : ℕ) (layer : Bytes)
    → mar2 width * mar2 height ≤ i
    → put_pixel rx ry (mar2 width) height color layer i ≡ layer i
unfolding put_pixel
put_pixel-outside rx ry width height color i layer h =
    elim (Bool-cases
      (ltb rx 0x80000000 && ltb ry 0x80000000 && ltb rx (mar2 width) && ltb ry height)) [
        | inr e ↦ rw e refl
        | inl e ↦ rw e (
            update_ne layer (mar rx + mar ry * mar2 width) color i
              (pixel_end rx ry width height i (ground (arith, e)) (ground (arith, e)) h))
      ]

-- Both layers are as they were from an index on.
abbrev pub SameBehind : ℕ → Screen → Screen → Type 0
SameBehind bound s t = (i : ℕ) → bound ≤ i → (t.fg i ≡ s.fg i) × (t.bg i ≡ s.bg i)

pub draw-SameBehind :
    (memory : Bytes) (ctrl : ℕ) (s : Screen)
    → SameBehind (layer_length s) s (draw_pixel ctrl s)
      × SameBehind (layer_length s) s (draw_port memory ctrl s)
unfolding draw_pixel draw_port on_layer
draw-SameBehind memory ctrl s = elim (Bool-cases (bit 6 ctrl)) [
  | inl e ↦ (
    λ i h. rw e (put_pixel-outside s.rx s.ry s.width s.height (ctrl % 4) i s.fg h, refl),
    λ i h. rw e (draw_sprites-outside (mode_of ctrl) s memory (s.rml + 1) _ i s.fg h, refl),
  )
  | inr e ↦ (
    λ i h. rw e (refl, put_pixel-outside s.rx s.ry s.width s.height (ctrl % 4) i s.bg h),
    λ i h. rw e (refl, draw_sprites-outside (mode_of ctrl) s memory (s.rml + 1) _ i s.bg h),
  )
]
