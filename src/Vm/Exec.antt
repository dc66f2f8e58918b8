-- ===== src/Vm/Exec.antt =====
-- src/vm/exec.h: every opcode in terms of the micro operations, and the interpreter loop.
use buxn.Prelude.{
  ℕ, zero, suc, ◌+◌, ◌-◌, ◌*◌, ◌/◌, ◌%◌, ◌^◌, Bool, true, false, not, Option, none, some, ltb, ◌==◌,
  if◌then◌else◌, u8, u16, short, bit_and, bit_or, bit_xor,
}
use buxn.Vm.State.{Vm, Host}
use buxn.Vm.Opcode.{
  Base, inc, pop, nip, swp, rot, dup, ovr, equ, neq, gth, lth, jmp, jcn, jsr, sth, ldz, stz, ldr,
  str, lda, sta, dei, deo, add, sub, mul, div, and, ora, eor, sft, Op, brk, jci, jmi, jsi, lit,
  poly, dispatch,
}
use buxn.Vm.Cpu.{
  Cpu, Uop, ◌>>=◌, ◌>>◌, modify, gets, when, load_state, save_state, begin_keep, uop_pop, uop_push,
  uop_jmp, pc_rel, uop_load, uop_store, store_bytes,
}

-- `a == b` and the like as an `int`.
abbrev flag : Bool → ℕ
flag t = if t then 1 else 0

-- `c = a BIN_OP b` for the four opcodes of `BUXN_POLY_CMP_OP`; the last clause is never reached.
unfoldable pub compare_op : Base → ℕ → ℕ → ℕ
compare_op equ a b = flag (a == b)
compare_op neq a b = flag (not (a == b))
compare_op gth a b = flag (ltb b a)
compare_op lth a b = flag (ltb a b)
compare_op _ a b = 0

-- `uint16_t c = a BIN_OP b` for the opcodes of `BUXN_POLY_BIN_OP`, and the division; the last clause
-- is never reached.
unfoldable pub binary_op : Base → ℕ → ℕ → ℕ
binary_op add a b = u16 (a + b)
binary_op sub a b = u16 (a + 65536 - b)
binary_op mul a b = u16 (a * b)
binary_op and a b = bit_and a b
binary_op ora a b = bit_or a b
binary_op eor a b = bit_xor a b
binary_op div a b = if b == 0 then 0 else a / b
binary_op _ a b = 0

-- `(a >> (b & 0x0f)) << ((b & 0xf0) >> 4)`
unfoldable pub shift_op : ℕ → ℕ → ℕ
shift_op a b = u16 (a / 2 ^ (b % 16) * 2 ^ (b / 16 % 16))

module _ {W : Type 0} where
  -- `BUXN_POLY_CMP_OP`
  unfoldable pub poly_cmp_op : Base → Bool → Bool → Bool → Uop W (Unit {0})
  unfolding compare_op
  poly_cmp_op op k r s = do
    b ← uop_pop k r s
    a ← uop_pop k r s
    uop_push r false (compare_op op a b)

  -- `BUXN_POLY_BIN_OP`
  unfoldable pub poly_bin_op : Base → Bool → Bool → Bool → Uop W (Unit {0})
  unfolding binary_op
  poly_bin_op op k r s = do b ← uop_pop k r s; a ← uop_pop k r s; uop_push r s (binary_op op a b)

  -- The stores of `BUXN_UOP_DEV_OUT1` and `BUXN_UOP_DEV_OUT2`.
  unfoldable pub dev_store : Bool → ℕ → ℕ → Uop W (Unit {0})
  unfolding store_bytes
  dev_store s addr v =
      modify
        (λ c. record c { vm = record (c.vm) { device = store_bytes s 256 addr v c.vm.device } })

  -- `pc += n` on the `uint16_t` counter.
  unfoldable pub advance : ℕ → Uop W (Unit {0})
  advance n = modify (λ c. record c { pc = u16 (c.pc + n) })

module _ {W : Type 0} (host : Host W) where
  -- `BUXN_UOP_DEV_IN1`: `buxn_vm_dei` gives a `uint8_t`.
  unfoldable pub dev_in1 : ℕ → Uop W ℕ
  dev_in1 addr c = let (vm', v) = host.dei c.vm (u8 addr) in (u8 v, record c { vm = vm' })

  -- `BUXN_POLY_DEV_IN`. C leaves the order of the two calls open; the first is made first.
  unfoldable pub uop_dev_in : Bool → ℕ → Uop W ℕ
  unfolding dev_in1
  uop_dev_in false addr = dev_in1 addr
  uop_dev_in true addr = do hi ← dev_in1 addr; lo ← dev_in1 (addr + 1); gets (λ _. short hi lo)

  unfoldable pub dev_notify : ℕ → Uop W (Unit {0})
  dev_notify addr = modify (λ c. record c { vm = host.deo c.vm (u8 addr) })

  -- `BUXN_POLY_DEV_OUT`: the bytes are stored first, then the host hears of each address.
  unfoldable pub uop_dev_out : Bool → ℕ → ℕ → Uop W (Unit {0})
  unfolding dev_store dev_notify
  uop_dev_out false addr v = do dev_store false addr v; dev_notify addr
  uop_dev_out true addr v = do dev_store true addr v; dev_notify addr; dev_notify (addr + 1)

  -- `BUXN_POLY_OP_…` with the flags k, r and s.
  unfoldable pub poly_op : Base → Bool → Bool → Bool → Uop W (Unit {0})
  unfolding poly_cmp_op poly_bin_op shift_op
  poly_op inc k r s = do a ← uop_pop k r s; uop_push r s (u16 (a + 1))
  poly_op pop k r s = do uop_pop k r s; modify (λ c. c)
  poly_op nip k r s = do b ← uop_pop k r s; uop_pop k r s; uop_push r s b
  poly_op swp k r s = do b ← uop_pop k r s; a ← uop_pop k r s; uop_push r s b; uop_push r s a
  poly_op rot k r s = do
    c ← uop_pop k r s
    b ← uop_pop k r s
    a ← uop_pop k r s
    uop_push r s b
    uop_push r s c
    uop_push r s a
  poly_op dup k r s = do a ← uop_pop k r s; uop_push r s a; uop_push r s a
  poly_op ovr k r s = do
    b ← uop_pop k r s
    a ← uop_pop k r s
    uop_push r s a
    uop_push r s b
    uop_push r s a
  poly_op equ k r s = poly_cmp_op equ k r s
  poly_op neq k r s = poly_cmp_op neq k r s
  poly_op gth k r s = poly_cmp_op gth k r s
  poly_op lth k r s = poly_cmp_op lth k r s
  poly_op jmp k r s = do a ← uop_pop k r s; uop_jmp s a
  poly_op jcn k r s = do b ← uop_pop k r s; a ← uop_pop k r false; when (not (a == 0)) (uop_jmp s b)
  poly_op jsr k r s = do
    pc ← gets (λ c. c.pc)
    uop_push (not r) true pc
    a ← uop_pop k r s
    uop_jmp s a
  poly_op sth k r s = do a ← uop_pop k r s; uop_push (not r) s a
  poly_op ldz k r s = do a ← uop_pop k r false; b ← uop_load s 256 a; uop_push r s b
  poly_op stz k r s = do a ← uop_pop k r false; b ← uop_pop k r s; uop_store s 256 a b
  poly_op ldr k r s = do
    a ← uop_pop k r false
    pc ← gets (λ c. c.pc)
    b ← uop_load s 65536 (pc_rel pc a)
    uop_push r s b
  poly_op str k r s = do
    a ← uop_pop k r false
    b ← uop_pop k r s
    pc ← gets (λ c. c.pc)
    uop_store s 65536 (pc_rel pc a) b
  poly_op lda k r s = do a ← uop_pop k r true; b ← uop_load s 65536 a; uop_push r s b
  poly_op sta k r s = do a ← uop_pop k r true; b ← uop_pop k r s; uop_store s 65536 a b
  poly_op dei k r s = do
    a ← uop_pop k r false
    modify save_state
    b ← uop_dev_in s a
    modify load_state
    uop_push r s b
  poly_op deo k r s = do
    a ← uop_pop k r false
    b ← uop_pop k r s
    modify save_state
    uop_dev_out s a b
    modify load_state
  poly_op sft k r s = do b ← uop_pop k r false; a ← uop_pop k r s; uop_push r s (shift_op a b)
  poly_op op k r s = poly_bin_op op k r s

  -- The code behind the label of an opcode other than `BRK`, which only returns.
  unfoldable pub impl_op : Op → Uop W (Unit {0})
  unfolding poly_op begin_keep advance
  impl_op brk = modify (λ c. c)
  impl_op jci = do
    a ← uop_pop false false false
    pc ← gets (λ c. c.pc)
    b ← uop_load true 65536 pc
    if a == 0 then advance 2 else advance (b + 2)
  impl_op jmi = do pc ← gets (λ c. c.pc); a ← uop_load true 65536 pc; advance (a + 2)
  impl_op jsi = do
    pc ← gets (λ c. c.pc)
    uop_push true true (pc + 2)
    a ← uop_load true 65536 pc
    advance (a + 2)
  impl_op (lit r s) = do
    pc ← gets (λ c. c.pc)
    a ← uop_load s 65536 pc
    advance (if s then 2 else 1)
    uop_push r s a
  impl_op (poly b k r s) = do modify (begin_keep k r); poly_op b k r s

-- What one round of the interpreter leaves: locals to go on with, the machine at `BRK`, or a jump
-- through an entry of the table that no row fills.
pub data Status (W : Type 0) : Type 0 where
  running : Cpu W → Status W
  returned : Vm W → Status W
  bad_label : Status W

-- The debug hook: `hook.fn` with its userdata, or none.
abbrev pub Hook : Type 0 → Type 0
Hook W = Option (Vm W → ℕ → Vm W)

module _ {W : Type 0} where
  -- `BUXN_VM_HOOK`: the pointers are saved for the hook, and not loaded again.
  unfoldable pub run_hook : Hook W → Cpu W → Cpu W
  unfolding save_state
  run_hook none c = c
  run_hook (some fn) c = let c' = save_state c in record c' { vm = fn (c'.vm) (c'.pc) }

  -- `BUXN_VM_EXECUTE`: the keep pointers have no initial value in C; none is read before it is set.
  unfoldable pub enter : Vm W → ℕ → Cpu W
  enter vm pc = record { vm = vm; pc = pc; wsp = vm.wsp; rsp = vm.rsp; kwsp = 0; krsp = 0 }

module _ {W : Type 0} (host : Host W) where
  unfoldable pub run_label : Option Op → Cpu W → Status W
  unfolding save_state impl_op
  run_label none c = bad_label
  run_label (some brk) c = returned ((save_state c).vm)
  run_label (some op) c = running ((impl_op host op c).1)

module _ {W : Type 0} (host : Host W) (hook : Hook W) where
  -- `BUXN_NEXT_OPCODE` and the code behind the label.
  unfoldable pub step : Cpu W → Status W
  unfolding run_hook run_label dispatch
  step c =
      let c' = run_hook hook c in
      run_label host (dispatch (c'.vm.memory (c'.pc))) (record c' { pc = u16 (c'.pc + 1) })

  -- The loop, for at most `fuel` rounds.
  unfoldable pub run : ℕ → Status W → Status W
  unfolding step
  run zero st = st
  run (suc fuel) (running c) = run fuel (step c)
  run (suc fuel) st = st

  -- `buxn_vm_execute`
  unfoldable pub execute : ℕ → Vm W → ℕ → Status W
  unfolding run enter
  execute fuel vm pc = if pc == 0 then returned vm else run fuel (running (enter vm pc))
