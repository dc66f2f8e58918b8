-- ===== src/Vm/Cpu.antt =====
-- src/vm/exec.h: the interpreter's local variables, and the micro operations on stacks, memory,
-- devices and the program counter.
use buxn.Prelude.{
  ℕ, ◌+◌, ◌-◌, ◌%◌, Bool, true, false, ltb, if◌then◌else◌, u8, u16, short, hi_byte, lo_byte, Bytes,
  update,
}
use buxn.Vm.State.{Vm, load2}

-- `vm`, and the locals of `BUXN_VM_EXECUTE`. The stack pointers are copies of those in `vm`.
pub record Cpu (W : Type 0) : Type 0 where
  pub vm : Vm W
  pub pc : ℕ
  pub wsp : ℕ
  pub rsp : ℕ
  pub kwsp : ℕ
  pub krsp : ℕ

-- A piece of an opcode: it changes the locals and the machine, and gives a value.
abbrev pub Uop : Type 0 → Type 0 → Type 0
Uop W A = Cpu W → A × Cpu W

infixl 5 ◌>>=◌ ◌>>◌
abbrev pub ◌>>=◌ : {W A B : Type 0} → Uop W A → (A → Uop W B) → Uop W B
◌>>=◌ m f c = let (a, c') = m c in f a c'

abbrev pub ◌>>◌ : {W A B : Type 0} → Uop W A → Uop W B → Uop W B
m >> n = m >>= λ _. n

abbrev pub modify : {W : Type 0} → (Cpu W → Cpu W) → Uop W (Unit {0})
modify f c = (tt, f c)

abbrev pub gets : {W A : Type 0} → (Cpu W → A) → Uop W A
gets f c = (f c, c)

abbrev pub when : {W : Type 0} → Bool → Uop W (Unit {0}) → Uop W (Unit {0})
when true m = m
when false m = modify (λ c. c)

-- `BUXN_PC_REL`: the low byte of the offset is signed.
unfoldable pub pc_rel : ℕ → ℕ → ℕ
pc_rel pc offset =
    let o = u8 offset in if ltb o 128 then u16 (pc + o) else u16 (pc + 65536 + o - 256)

-- `BUXN_UOP_STORE1_GEN` and `BUXN_UOP_STORE2_GEN`, on an array whose index is taken modulo `size`.
unfoldable pub store_bytes : Bool → ℕ → ℕ → ℕ → Bytes → Bytes
store_bytes false size addr v mem = update mem (addr % size) (u8 v)
store_bytes true size addr v mem =
    update (update mem (addr % size) (hi_byte v)) ((addr + 1) % size) (lo_byte v)

module _ {W : Type 0} where
  -- `BUXN_LOAD_STATE` and `BUXN_SAVE_STATE`
  unfoldable pub load_state : Cpu W → Cpu W
  load_state c = record c { wsp = c.vm.wsp; rsp = c.vm.rsp }

  unfoldable pub save_state : Cpu W → Cpu W
  save_state c = record c { vm = record (c.vm) { wsp = c.wsp; rsp = c.rsp } }

  -- The pointer that POP moves: `wsp`, `rsp`, `kwsp` or `krsp`, by the flags k and r.
  unfoldable pub ptr : Bool → Bool → Cpu W → ℕ
  ptr false false c = c.wsp
  ptr false true c = c.rsp
  ptr true false c = c.kwsp
  ptr true true c = c.krsp

  unfoldable pub set_ptr : Bool → Bool → ℕ → Cpu W → Cpu W
  set_ptr false false p c = record c { wsp = p }
  set_ptr false true p c = record c { rsp = p }
  set_ptr true false p c = record c { kwsp = p }
  set_ptr true true p c = record c { krsp = p }

  -- The stack that the flag r selects.
  unfoldable pub stack : Bool → Vm W → Bytes
  stack false vm = vm.ws
  stack true vm = vm.rs

  unfoldable pub set_stack : Bool → Bytes → Cpu W → Cpu W
  set_stack false bytes c = record c { vm = record (c.vm) { ws = bytes } }
  set_stack true bytes c = record c { vm = record (c.vm) { rs = bytes } }

  -- `kwsp = wsp;` or `krsp = rsp;` in front of an opcode with the flag k.
  unfoldable pub begin_keep : Bool → Bool → Cpu W → Cpu W
  begin_keep false r c = c
  begin_keep true false c = record c { kwsp = c.wsp }
  begin_keep true true c = record c { krsp = c.rsp }

  -- `STACK[(uint8_t)(--PTR)]`
  unfoldable pub uop_pop1 : Bool → Bool → Uop W ℕ
  unfolding ptr set_ptr stack
  uop_pop1 k r c = let p = u8 (ptr k r c + 255) in (stack r (c.vm) p, set_ptr k r p c)

  -- `PTR -= 2, (STACK[PTR] << 8) | STACK[(uint8_t)(PTR + 1)]`
  unfoldable pub uop_pop2 : Bool → Bool → Uop W ℕ
  unfolding ptr set_ptr stack
  uop_pop2 k r c =
      let p = u8 (ptr k r c + 254) in
      (short (stack r (c.vm) p) (stack r (c.vm) (u8 (p + 1))), set_ptr k r p c)

  -- `BUXN_POLY_POP`
  unfoldable pub uop_pop : Bool → Bool → Bool → Uop W ℕ
  unfolding uop_pop1 uop_pop2
  uop_pop k r false = uop_pop1 k r
  uop_pop k r true = uop_pop2 k r

  -- `STACK[PTR++] = (uint8_t)(VALUE & 0xff)`
  unfoldable pub uop_push1 : Bool → ℕ → Uop W (Unit {0})
  unfolding ptr set_ptr stack set_stack
  uop_push1 r v c =
      let p = ptr false r c in
      (tt, set_ptr false r (u8 (p + 1)) (set_stack r (update (stack r (c.vm)) p (lo_byte v)) c))

  unfoldable pub uop_push2 : Bool → ℕ → Uop W (Unit {0})
  unfolding ptr set_ptr stack set_stack
  uop_push2 r v c =
      let p = ptr false r c in
      let bytes = update (update (stack r (c.vm)) p (hi_byte v)) (u8 (p + 1)) (lo_byte v) in
      (tt, set_ptr false r (u8 (p + 2)) (set_stack r bytes c))

  -- `BUXN_POLY_PUSH`
  unfoldable pub uop_push : Bool → Bool → ℕ → Uop W (Unit {0})
  unfolding uop_push1 uop_push2
  uop_push r false v = uop_push1 r v
  uop_push r true v = uop_push2 r v

  -- `BUXN_POLY_JMP`: relative, or absolute with the flag s.
  unfoldable pub uop_jmp : Bool → ℕ → Uop W (Unit {0})
  unfolding pc_rel
  uop_jmp false offset = modify (λ c. record c { pc = pc_rel c.pc offset })
  uop_jmp true position = modify (λ c. record c { pc = u16 position })

  -- `BUXN_UOP_LOAD1_GEN` and `BUXN_UOP_LOAD2_GEN`: `size` is 2 ^ 16 for the memory, 2 ^ 8 for the
  -- zero page.
  unfoldable pub uop_load : Bool → ℕ → ℕ → Uop W ℕ
  unfolding load2
  uop_load false size addr = gets (λ c. c.vm.memory (addr % size))
  uop_load true size addr = gets (λ c. load2 c.vm.memory addr size)

  unfoldable pub uop_store : Bool → ℕ → ℕ → ℕ → Uop W (Unit {0})
  unfolding store_bytes
  uop_store s size addr v =
      modify
        (λ c. record c { vm = record (c.vm) { memory = store_bytes s size addr v c.vm.memory } })
