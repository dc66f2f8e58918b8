-- ===== src/Vm/Valid/Run.antt =====
-- src/vm/vm.c, src/vm/exec.h: the interpreter keeps the ranges and never leaves its table.
use buxn.Prelude.{ℕ, zero, suc, ◌<◌, Bool-cases, inl, inr, none, some, arith, ◌==◌}
use buxn.Vm.State.{Vm, Host}
use buxn.Vm.Opcode.{Op, brk, jci, jmi, jsi, lit, poly, dispatch}
use buxn.Vm.Dispatch.{dispatch-total}
use buxn.Vm.Cpu.{Cpu}
use buxn.Vm.Exec.{
  Status, running, returned, bad_label, Hook, run_hook, run_label, step, run, enter, execute,
}
use buxn.Vm.Valid.Uops.{IsValid, CpuIsValid, HostIsValid, Keeps-save_state}
use buxn.Vm.Valid.Ops.{Keeps-impl_op}

-- A hook keeps the ranges of the machine that it is shown.
abbrev pub HookIsValid : {W : Type 0} → Hook W → Type 0
HookIsValid none = Unit
HookIsValid {W} (some fn) = (vm : Vm W) (pc : ℕ) → IsValid vm → pc < 65536 → IsValid (fn vm pc)

-- The locals or the machine are in range, and no jump went through an unfilled entry.
abbrev pub StatusIsValid : {W : Type 0} → Status W → Type 0
StatusIsValid (running c) = CpuIsValid c
StatusIsValid (returned vm) = IsValid vm
StatusIsValid bad_label = ⊥

module _ {W : Type 0} where
  run_hook-CpuIsValid :
      (hook : Hook W) (c : Cpu W) → HookIsValid hook → CpuIsValid c → CpuIsValid (run_hook hook c)
  unfolding run_hook
  run_hook-CpuIsValid none c hk h = h
  run_hook-CpuIsValid (some fn) c hk h =
      let h' = Keeps-save_state.at c h in
      record {
        vm = hk _ _ h'.vm h'.pc;
        pc = h.pc;
        wsp = h.wsp;
        rsp = h.rsp;
        kwsp = h.kwsp;
        krsp = h.krsp;
      }

  enter-CpuIsValid : (vm : Vm W) (pc : ℕ) → IsValid vm → pc < 65536 → CpuIsValid (enter vm pc)
  unfolding enter
  enter-CpuIsValid vm pc h p = ground arith

module _ {W : Type 0} (host : Host W) (hh : HostIsValid host) where
  run_label-StatusIsValid :
      (op : Op) (c : Cpu W) → CpuIsValid c → StatusIsValid (run_label host (some op) c)
  unfolding run_label
  run_label-StatusIsValid brk c h = (Keeps-save_state.at c h).vm
  run_label-StatusIsValid jci c h = (Keeps-impl_op host hh jci).at c h
  run_label-StatusIsValid jmi c h = (Keeps-impl_op host hh jmi).at c h
  run_label-StatusIsValid jsi c h = (Keeps-impl_op host hh jsi).at c h
  run_label-StatusIsValid (lit r s) c h = (Keeps-impl_op host hh (lit r s)).at c h
  run_label-StatusIsValid (poly b k r s) c h = (Keeps-impl_op host hh (poly b k r s)).at c h

  fetch-StatusIsValid :
      (opcode : ℕ) (c : Cpu W)
      → opcode < 256
      → CpuIsValid c
      → StatusIsValid (run_label host (dispatch opcode) c)
  fetch-StatusIsValid opcode c b h =
      let (op, e, v) = dispatch-total opcode b in rw e (run_label-StatusIsValid op c h)

  module _ (hook : Hook W) (hk : HookIsValid hook) where
    step-StatusIsValid : (c : Cpu W) → CpuIsValid c → StatusIsValid (step host hook c)
    unfolding step
    step-StatusIsValid c h =
        let h' = run_hook-CpuIsValid hook c hk h in
        fetch-StatusIsValid _ _ (h'.vm.memory _) record {
          vm = h'.vm;
          pc = omega arith;
          wsp = h'.wsp;
          rsp = h'.rsp;
          kwsp = h'.kwsp;
          krsp = h'.krsp;
        }

    run-StatusIsValid :
        (fuel : ℕ) (st : Status W) → StatusIsValid st → StatusIsValid (run host hook fuel st)
    unfolding run
    run-StatusIsValid zero st h = h
    run-StatusIsValid (suc fuel) (running c) h =
        run-StatusIsValid fuel (step host hook c) (step-StatusIsValid c h)
    run-StatusIsValid (suc fuel) (returned vm) h = h
    run-StatusIsValid (suc fuel) bad_label h = h

    -- If the machine starts in range at an address below 65536, and the host and the hook keep it
    -- in range, then after any number of rounds every pointer, stack byte, device byte and memory
    -- byte fits `uint8_t`, the program counter fits `uint16_t`, and no jump went through an entry of
    -- the dispatch table that no opcode fills.
    pub execute-StatusIsValid :
        (fuel : ℕ) (vm : Vm W) (pc : ℕ)
        → IsValid vm
        → pc < 65536
        → StatusIsValid (execute host hook fuel vm pc)
    unfolding execute
    execute-StatusIsValid fuel vm pc h p = elim (Bool-cases (pc == 0)) [
      | inl e ↦ rw e h
      | inr e ↦ rw e (run-StatusIsValid fuel (running (enter vm pc)) (enter-CpuIsValid vm pc h p))
    ]
