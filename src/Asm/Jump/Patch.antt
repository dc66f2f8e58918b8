-- ===== src/Asm/Jump/Patch.antt =====
-- src/asm/asm.c: the references that are patched when their label is defined.
use buxn.Prelude.{
  ℕ, ◌+◌, ◌/◌, ◌%◌, ◌<◌, ◌≡◌, refl, ap, ◌∙◌, Bool, true, false, ◌&&◌, none, List, [], ◌∷◌, arith,
  ltb, Bool-cases, inl, inr, u8, u16, Bytes, update,
}
use buxn.Prelude.Int.{ℤ, pos}
use buxn.Asm.Jump.{Room, with_short, reference_value, emit-done, emit2-done}
use buxn.Asm.State.{
  Token, LabelRefType, ref_zero, ref_abs, ref_rel, LabelRefSize, ref_byte, ref_short, ForwardRef,
  Asm, done, ◌>>=◌, pure, gets, modify, attempt,
}
use buxn.Asm.Report.{report, warning}
use buxn.Asm.Emit.{
  set_write_addr, emit_backward_ref, to_u16, difference, LabelInfo, too_far, emit_addr,
  calculate_addr, is_rel,
}
use buxn.Asm.Label.{patch}

abbrev is_byte : LabelRefSize → Bool
is_byte ref_byte = true
is_byte ref_short = false

-- A relative byte that does not reach the label.
abbrev unreachable : LabelRefType → LabelRefSize → ℕ → ℕ → Bool
unreachable type size from to = is_byte size && is_rel type && too_far (difference to (from + 2))

-- The bytes of a reference.
abbrev pub store_value : LabelRefSize → ℕ → ℕ → Bytes → Bytes
store_value ref_byte v addr rom = update rom addr (u8 (v % 256))
store_value ref_short v addr rom = update (update rom addr (u8 (v / 256))) (addr + 1) (u8 (v % 256))

abbrev pub store_of : LabelInfo → ForwardRef → Bytes → Bytes
store_of l r rom = store_value r.size (reference_value r.type r.addr l.address) r.addr rom

abbrev pub Reachable : LabelInfo → ForwardRef → Type 0
Reachable l r = Room r.addr × (unreachable r.type r.size r.addr l.address ≡ false)

calculate_addr-done :
    (token : Token) (type : LabelRefType) (from to : ℕ) (a : Asm)
    → to < 65536
    → (z : ℤ) × (b : Asm) × (calculate_addr token type from to a ≡ (done z, b))
      × (b.rom ≡ a.rom)
      × (b.write_addr ≡ a.write_addr)
      × (to_u16 z ≡ reference_value type from to)
      × (is_rel type ≡ true → z ≡ difference to (from + 2))
unfolding calculate_addr ◌>>=◌ pure to_u16 warning report modify
calculate_addr-done token ref_abs from to a h =
    (pos to, a, refl, refl, refl, omega arith, λ e. absurd (ground arith))
calculate_addr-done token ref_rel from to a h = (_, a, refl, refl, refl, refl, λ e. refl)
calculate_addr-done token ref_zero from to a h = elim (Bool-cases (ltb 255 to)) [
  | inl e ↦ (
    pos (to % 256),
    (warning token "Taking zero-address of a label past page zero" a).1,
    rw e refl,
    refl,
    refl,
    omega arith,
    λ e. absurd (ground arith),
  )
  | inr e ↦ (pos (to % 256), a, rw e refl, refl, refl, omega arith, λ e. absurd (ground arith))
]

emit_addr-done :
    (token : Token) (type : LabelRefType) (size : LabelRefSize) (z : ℤ) (at : Token) (a : Asm)
    → Room a.write_addr
    → is_byte size && is_rel type && too_far z ≡ false
    → (b : Asm) × (emit_addr token type size z at none a ≡ (done tt, b))
      × (b.rom ≡ store_value size (to_u16 z) a.write_addr a.rom)
unfolding emit_addr ◌>>=◌ gets pure
emit_addr-done token type ref_byte z at a room h = (
  record a {
    write_addr = u16 (a.write_addr + 1);
    rom = update a.rom a.write_addr (u8 (to_u16 z % 256));
  },
  rw h (rw (emit-done token (to_u16 z % 256) a room.0) refl),
  refl,
)
emit_addr-done token type ref_short z at a room h =
    (with_short (to_u16 z) a, rw (emit2-done token (to_u16 z) a room) refl, refl)

near_value :
    (type : LabelRefType) (size : LabelRefSize) (from to : ℕ) (z : ℤ)
    → (is_rel type ≡ true → z ≡ difference to (from + 2))
    → unreachable type size from to ≡ false
    → is_byte size && is_rel type && too_far z ≡ false
near_value type ref_short from to z h near = refl
near_value ref_zero ref_byte from to z h near = refl
near_value ref_abs ref_byte from to z h near = refl
near_value ref_rel ref_byte from to z h near = rw (h refl) near

-- A reference that has room and reaches the label is emitted.
emit_backward_ref-done :
    (r : ForwardRef) (l : LabelInfo) (a : Asm)
    → a.write_addr ≡ r.addr
    → l.address < 65536
    → Reachable l r
    → (b : Asm) × (emit_backward_ref r.token r.type r.size l false false a ≡ (done tt, b))
      × (b.rom ≡ store_of l r a.rom)
unfolding emit_backward_ref ◌>>=◌ gets pure
emit_backward_ref-done r l a at hl (room, near) =
    let c = calculate_addr-done r.token r.type a.write_addr l.address a hl in
    let e = emit_addr-done r.token r.type r.size c.0 l.defining_token c.1 (rw c.4 (rw at room)) (
      near_value r.type r.size r.addr l.address c.0
        (λ t. c.6 t ∙ ap (λ n. difference l.address (n + 2)) at) near) in
    (e.0, rw c.2 e.1, e.2 ∙ rw (c.3, c.4, c.5, at) refl)

-- The bytes of all references, the first one first.
unfoldable pub store_all : LabelInfo → List ForwardRef → Bytes → Bytes
store_all l [] rom = rom
store_all l (r ∷ refs) rom = store_all l refs (store_of l r rom)

abbrev pub AllRefs : (ForwardRef → Type 0) → List ForwardRef → Type 0
AllRefs p [] = Unit {0}
AllRefs p (r ∷ refs) = p r × AllRefs p refs

pub patch-done :
    (l : LabelInfo) (refs : List ForwardRef) (a : Asm)
    → l.address < 65536
    → AllRefs (Reachable l) refs
    → (b : Asm) × (patch l refs a ≡ (done tt, b)) × (b.rom ≡ store_all l refs a.rom)
unfolding patch store_all set_write_addr ◌>>=◌ modify pure attempt
patch-done l [] a hl h = (a, refl, refl)
patch-done l (r ∷ refs) a hl (hr, h) =
    let e = emit_backward_ref-done r l (record a { write_addr = r.addr }) refl hl hr in
    let ih = patch-done l refs e.0 hl h in (ih.0, rw e.1 ih.1, ih.2 ∙ ap (store_all l refs) e.2)
