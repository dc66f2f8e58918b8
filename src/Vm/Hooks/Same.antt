-- ===== src/Vm/Hooks/Same.antt =====
-- src/vm/vm.c: a hook that only touches the saved stack pointers goes unnoticed.
use buxn.Prelude.{
  ℕ, zero, suc, ◌≡◌, refl, sym, ap, ◌∙◌, Bool-cases, inl, inr, Option, none, some, ◌==◌, u16, ◌+◌,
}
use buxn.Vm.State.{Vm, Host}
use buxn.Vm.Opcode.{Op, brk, jci, jmi, jsi, lit, poly, dispatch}
use buxn.Vm.Cpu.{Cpu, save_state}
use buxn.Vm.Exec.{
  Status, running, returned, bad_label, run_hook, run_label, step, run, enter, execute,
}
use buxn.Vm.Hooks.Blind.{Blind-impl_op}

-- The hook changes nothing in the machine but the saved stack pointers.
abbrev pub OnlyPointers : {W : Type 0} → (Vm W → ℕ → Vm W) → Type 0
OnlyPointers {W} fn = (vm : Vm W) (pc : ℕ) → record (fn vm pc) { wsp = vm.wsp; rsp = vm.rsp } ≡ vm

-- A status whose locals are saved into the machine, as the next return or device access does.
pub settle : {W : Type 0} → Status W → Status W
settle (running c) = running (save_state c)
settle st = st

module _ {W : Type 0} (host : Host W) where
  run_label-save :
      (o : Option Op) (c : Cpu W)
      → settle (run_label host o (save_state c)) ≡ settle (run_label host o c)
  unfolding settle run_label
  run_label-save none c = refl
  run_label-save (some brk) c = refl
  run_label-save (some jci) c = ap running ((Blind-impl_op host jci).after c)
  run_label-save (some jmi) c = ap running ((Blind-impl_op host jmi).after c)
  run_label-save (some jsi) c = ap running ((Blind-impl_op host jsi).after c)
  run_label-save (some (lit r s)) c = ap running ((Blind-impl_op host (lit r s)).after c)
  run_label-save (some (poly b k r s)) c = ap running ((Blind-impl_op host (poly b k r s)).after c)

  run_label-same :
      (o : Option Op) (c d : Cpu W)
      → save_state c ≡ save_state d
      → settle (run_label host o c) ≡ settle (run_label host o d)
  run_label-same o c d h =
      sym (run_label-save o c) ∙ ap (λ t. settle (run_label host o t)) h ∙ run_label-save o d

  fetch-same :
      (c d : Cpu W)
      → save_state c ≡ save_state d
      → settle (run_label host (dispatch (c.vm.memory c.pc)) (record c { pc = u16 (c.pc + 1) }))
        ≡ settle (run_label host (dispatch (d.vm.memory d.pc)) (record d { pc = u16 (d.pc + 1) }))
  unfolding save_state
  fetch-same c d h =
      ap
        (λ (t : Cpu W).
          settle (run_label host (dispatch (t.vm.memory t.pc)) (record c { pc = u16 (c.pc + 1) })))
        h
      ∙ run_label-same _ _ _ (ap (λ (t : Cpu W). record t { pc = u16 (t.pc + 1) }) h)

  module _ (fn : Vm W → ℕ → Vm W) (quiet : OnlyPointers fn) where
    run_hook-save : (c : Cpu W) → save_state (run_hook (some fn) c) ≡ save_state c
    unfolding run_hook save_state
    run_hook-save c = λ i. record (save_state c) { vm = quiet (save_state c).vm c.pc i }

    step-same :
        (c d : Cpu W)
        → save_state c ≡ save_state d
        → settle (step host (some fn) c) ≡ settle (step host none d)
    unfolding step
    step-same c d h = fetch-same (run_hook (some fn) c) d (run_hook-save c ∙ h)

    run-same :
        (fuel : ℕ) (st st' : Status W)
        → settle st ≡ settle st'
        → settle (run host (some fn) fuel st) ≡ settle (run host none fuel st')
    unfolding run settle
    run-same zero st st' h = h
    run-same (suc fuel) (running c) (running d) h =
        run-same fuel (step host (some fn) c) (step host none d) (step-same c d (cc))
    run-same (suc fuel) (running c) (returned vm) h = cc
    run-same (suc fuel) (running c) bad_label h = cc
    run-same (suc fuel) (returned vm) (running d) h = cc
    run-same (suc fuel) bad_label (running d) h = cc
    run-same (suc fuel) (returned vm) (returned vm') h = h
    run-same (suc fuel) (returned vm) bad_label h = h
    run-same (suc fuel) bad_label (returned vm) h = h
    run-same (suc fuel) bad_label bad_label h = h

    -- A hook that changes nothing but the machine's saved stack pointers goes unnoticed: for any
    -- number of rounds the interpreter with the hook is where the one without it is, once the
    -- interpreter's own pointers are saved, and a program that has returned left the same machine.
    pub execute-same :
        (fuel : ℕ) (vm : Vm W) (pc : ℕ)
        → settle (execute host (some fn) fuel vm pc) ≡ settle (execute host none fuel vm pc)
    unfolding execute
    execute-same fuel vm pc = elim (Bool-cases (pc == 0)) [
      | inl e ↦ rw e refl
      | inr e ↦ rw e (run-same fuel (running (enter vm pc)) (running (enter vm pc)) refl)
    ]
