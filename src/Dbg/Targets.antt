-- ===== src/Dbg/Targets.antt =====
-- src/dbg/core.c, src/vm/exec.h: the addresses that the debugger decodes for a store against the
-- bytes that the interpreter then writes.
use buxn.Prelude.{
  ap, ◌≢◌, Bytes, ◌∙◌, if◌then◌else◌, ◌<◌, arith, ◌%◌, u8, short, ◌&&◌, ◌+◌, false, ◌==◌, u16, true,
  ◌≡◌, Bool, ℕ,
}
use buxn.Vm.Opcode.{Base, base_value, Op, poly, stz, str, sta, dei, deo, value}
use buxn.Dbg.Frame.{KeepsMemory-begin_keep, KeepsMemory-uop_pop}
use buxn.Vm.State.{Host}
use buxn.Vm.Cpu.{begin_keep, uop_store, store_bytes, uop_pop, pc_rel, Cpu, Cpu}
use buxn.Dbg.Match.{targets, mem_store, is_class, target_of, decode, Target}
use buxn.Vm.Exec.{impl_op}
use buxn.Vm.Valid.Uops.{IsValid}
use buxn.Vm.Reset.{has_flag}

-- A store of a short to the last byte of the zero page, which the interpreter wraps around.
abbrev pub wraps : Op → Target → Bool
wraps (poly stz k r true) t = t.addr1 == 255
wraps _ t = false

abbrev pub calls_host : Op → Bool
calls_host (poly dei k r s) = true
calls_host (poly deo k r s) = true
calls_host _ = false

-- The byte is one that the opcode at the program counter is decoded to store to.
abbrev pub watched : Target → ℕ → Bool
watched t a = is_class t.opcode_class mem_store && targets t a

-- The interpreter is about to run the code of the opcode at `pc`.
pub record IsAt {W : Type 0} (op : Op) (pc : ℕ) (c : Cpu W) : Type 0 where
  pub opcode : c.vm.memory pc ≡ value op
  pub next : c.pc ≡ u16 (pc + 1)
  pub wsp : c.wsp ≡ c.vm.wsp
  pub rsp : c.rsp ≡ c.vm.rsp
  pub valid : IsValid c.vm

-- What the decoder sees in the value of an opcode.
record Fields (b : Base) (k r s : Bool) : Type 0 where
  base : value (poly b k r s) % 32 ≡ base_value b
  return_stack : has_flag (value (poly b k r s)) 0x40 ≡ r
  short_mode : has_flag (value (poly b k r s)) 0x20 ≡ s

base_value-lt : (b : Base) → base_value b < 32
unfolding base_value
base_value-lt Base.inc = omega arith
base_value-lt _ = omega arith

Fields-poly : (b : Base) (k r s : Bool) → Fields b k r s
unfolding value has_flag
Fields-poly b k r s =
    let lt = base_value-lt b in
    record { base = ground arith; return_stack = ground arith; short_mode = ground arith }

-- The byte of the stack that the flag r selects, at `n` beyond its pointer.
abbrev pub top : {W : Type 0} → Cpu W → Bool → ℕ → ℕ
top c r n = if r then c.vm.rs (u8 (c.vm.rsp + n)) else c.vm.ws (u8 (c.vm.wsp + n))

abbrev pub store_at : Bool → ℕ → Target
store_at s addr = record {
  opcode_class = mem_store;
  addr1 = addr;
  addr2 = u16 (addr + (if s then 1 else 0));
}

module _ {W : Type 0} (c : Cpu W) (pc : ℕ) (k r s : Bool) where
  pub decode-stz : IsAt (poly stz k r s) pc c → decode c.vm pc ≡ store_at s (top c r 255)
  unfolding decode target_of base_value
  decode-stz h =
      let f = Fields-poly stz k r s in
      rw (h.opcode, f.base, f.return_stack, f.short_mode) (ground arith)

  decode-str :
      IsAt (poly str k r s) pc c → decode c.vm pc ≡ store_at s (pc_rel (pc + 1) (top c r 255))
  unfolding decode target_of base_value
  decode-str h =
      let f = Fields-poly str k r s in
      rw (h.opcode, f.base, f.return_stack, f.short_mode) (ground arith)

  decode-sta :
      IsAt (poly sta k r s) pc c → decode c.vm pc ≡ store_at s (short (top c r 254) (top c r 255))
  unfolding decode target_of base_value
  decode-sta h =
      let f = Fields-poly sta k r s in
      rw (h.opcode, f.base, f.return_stack, f.short_mode) (ground arith)

module _ {W : Type 0} (c : Cpu W) (k r : Bool) where
  abbrev keep : Cpu W
  keep = begin_keep k r c

  -- The address is the topmost byte or short, whether it is kept or not.
  pub pop_byte : c.wsp ≡ c.vm.wsp → c.rsp ≡ c.vm.rsp → (uop_pop k r false keep).0 ≡ top c r 255
  unfolding uop_pop begin_keep
  pop_byte hw hr = ground arith

  pop_short :
      c.wsp ≡ c.vm.wsp
      → c.rsp ≡ c.vm.rsp
      → (uop_pop k r true keep).0 ≡ short (top c r 254) (top c r 255)
  unfolding uop_pop begin_keep
  pop_short hw hr = ground arith

  pops-pc : (s t : Bool) → (uop_pop k r s (uop_pop k r t keep).1).1.pc ≡ c.pc
  unfolding uop_pop begin_keep
  pops-pc s t = ground arith

  -- Two pops, that of the address and that of the value, change no byte.
  pops-memory : (s t : Bool) → (uop_pop k r s (uop_pop k r t keep).1).1.vm.memory ≡ c.vm.memory
  pops-memory s t =
      KeepsMemory-uop_pop k r s (uop_pop k r t keep).1
      ∙ KeepsMemory-uop_pop k r t keep
      ∙ KeepsMemory-begin_keep k r c

-- A store of one or two bytes changes no byte beside them.
store_bytes_elsewhere :
    (s : Bool) (size addr v : ℕ) (mem : Bytes) (a : ℕ)
    → a ≢ addr % size
    → (s ≡ true → a ≢ (addr + 1) % size)
    → store_bytes s size addr v mem a ≡ mem a
unfolding store_bytes
store_bytes_elsewhere s size addr v mem a h h' = ground arith

module _ {W : Type 0} (host : Host W) (c : Cpu W) (pc : ℕ) (a : ℕ) where
  abbrev pub Same : Op → Type 0
  Same op = (impl_op host op c).1.vm.memory a ≡ c.vm.memory a

  pub top-lt : (r : Bool) (n : ℕ) → IsValid c.vm → top c r n < 256
  top-lt true n h = h.rs _
  top-lt false n h = h.ws _

  pub stz-Same :
      (k r s : Bool)
      → IsAt (poly stz k r s) pc c
      → wraps (poly stz k r s) (decode c.vm pc) ≡ false
      → watched (decode c.vm pc) a ≡ false
      → Same (poly stz k r s)
  unfolding impl_op uop_store
  stz-Same k r s h w n =
      let d = decode-stz c pc k r s h in
      let lt = top-lt r 255 h.valid in
      let w' : wraps (poly stz k r s) (store_at s (top c r 255)) ≡ false = rw d at w in
      let n' : watched (store_at s (top c r 255)) a ≡ false = rw d at n in
      store_bytes_elsewhere s 256 _ _ _ a (rw (pop_byte c k r h.wsp h.rsp) (ground arith))
        (rw (pop_byte c k r h.wsp h.rsp) (ground arith))
      ∙ ap (λ mem. mem a) (pops-memory c k r s false)

  pc_rel-next : (offset : ℕ) → pc_rel (u16 (pc + 1)) offset ≡ pc_rel (pc + 1) offset
  unfolding pc_rel
  pc_rel-next offset = ground arith

  pc_rel-lt : (at offset : ℕ) → pc_rel at offset < 65536
  unfolding pc_rel
  pc_rel-lt at offset = ground arith

  pub str-Same :
      (k r s : Bool)
      → IsAt (poly str k r s) pc c
      → watched (decode c.vm pc) a ≡ false
      → Same (poly str k r s)
  unfolding impl_op uop_store
  str-Same k r s h n =
      let addr = pc_rel (pc + 1) (top c r 255) in
      let n' : watched (store_at s addr) a ≡ false = rw (decode-str c pc k r s h) at n in
      let e = pc_rel-next (top c r 255) in
      let p = pops-pc c k r s false in
      let lt = pc_rel-lt (pc + 1) (top c r 255) in
      let b = pop_byte c k r h.wsp h.rsp in
      store_bytes_elsewhere s 65536 _ _ _ a (rw (b, p, h.next, e) (ground arith))
        (rw (b, p, h.next, e) (ground arith))
      ∙ ap (λ mem. mem a) (pops-memory c k r s false)

  pub sta-Same :
      (k r s : Bool)
      → IsAt (poly sta k r s) pc c
      → watched (decode c.vm pc) a ≡ false
      → Same (poly sta k r s)
  unfolding impl_op uop_store
  sta-Same k r s h n =
      let addr = short (top c r 254) (top c r 255) in
      let n' : watched (store_at s addr) a ≡ false = rw (decode-sta c pc k r s h) at n in
      let hi = top-lt r 254 h.valid in
      let lo = top-lt r 255 h.valid in
      store_bytes_elsewhere s 65536 _ _ _ a (rw (pop_short c k r h.wsp h.rsp) (ground arith))
        (rw (pop_short c k r h.wsp h.rsp) (ground arith))
      ∙ ap (λ mem. mem a) (pops-memory c k r s true)
