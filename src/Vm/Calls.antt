-- ===== src/Vm/Calls.antt =====
-- src/vm/exec.h: subroutine calls and returns.
use buxn.Prelude.{◌+◌, ◌<◌, ◌≡◌, Bool, true, false, arith, u16}
use buxn.Vm.State.{Host}
use buxn.Vm.Opcode.{jsr, jmp, jsi, poly}
use buxn.Vm.Cpu.{Cpu, uop_pop, uop_push, uop_jmp, uop_load}
use buxn.Vm.Exec.{impl_op}

-- `JMP2r` at the locals: a return.
abbrev pub return_op : {W : Type 0} → Host W → Cpu W → Cpu W
return_op host d = (impl_op host (poly jmp false true true) d).1

module _ {W : Type 0} (host : Host W) (c d : Cpu W) (rsp : c.rsp < 256) where
  -- After `JSR` in any mode but r, whatever the subroutine does, if it leaves the return stack and
  -- its pointer as the call left them, `JMP2r` continues at the instruction after the call, with
  -- the return stack pointer from before the call.
  pub return-jsr :
      (k s : Bool)
      → c.pc < 65536
      → d.vm.rs ≡ (impl_op host (poly jsr k false s) c).1.vm.rs
      → d.rsp ≡ (impl_op host (poly jsr k false s) c).1.rsp
      → ((return_op host d).pc ≡ c.pc) × ((return_op host d).rsp ≡ c.rsp)
  unfolding impl_op uop_pop uop_push uop_jmp
  return-jsr k s pc rs sp = ground arith

  -- `JSI` returns behind its two address bytes.
  pub return-jsi :
      d.vm.rs ≡ (impl_op host jsi c).1.vm.rs
      → d.rsp ≡ (impl_op host jsi c).1.rsp
      → ((return_op host d).pc ≡ u16 (c.pc + 2)) × ((return_op host d).rsp ≡ c.rsp)
  unfolding impl_op uop_pop uop_push uop_jmp uop_load
  return-jsi rs sp = ground arith
