-- ===== src/Vm/Tests.antt =====
-- src/vm: runs of the machine on small programs, and the theorems at concrete inputs.
use buxn.Prelude.{
  ℕ, zero, suc, ◌+◌, ◌<◌, ◌≡◌, refl, true, false, arith, Bytes, AllBytes, Option, none, some, List,
  [], ◌∷◌,
}
use buxn.Vm.State.{Vm, Host}
use buxn.Vm.Opcode.{jsr, Op, rot, value, dispatch}
use buxn.Vm.Dispatch.{dispatch-value, dispatch-total}
use buxn.Vm.Cpu.{Cpu, ptr, stack, uop_pop, uop_push, uop_jmp, uop_load, uop_store}
use buxn.Vm.Exec.{Status, returned, uop_dev_in, uop_dev_out, execute, impl_op}
use buxn.Vm.Opcode.{poly}
use buxn.Vm.Valid.Uops.{IsValid, HostIsValid}
use buxn.Vm.Valid.Run.{StatusIsValid, execute-StatusIsValid}
use buxn.Vm.Spec.Refine.{Effect, impl_op-Effect}
use buxn.Vm.Hooks.Same.{settle, execute-same}
use buxn.Vm.Calls.{return-jsr, return_op}
use buxn.Vm.Memory.{load-store, wrap, stored}
use buxn.Vm.Reset.Regions.{reset-Regions, Regions}
use buxn.Vm.Reset.{reset}

-- A host whose devices are the bytes of device memory.
abbrev pub quiet : Host (Unit {0})
quiet = record { dei = λ vm a. (vm, vm.device a); deo = λ vm a. vm }

-- The bytes of a list from an address on, and 0 elsewhere.
abbrev pub at : ℕ → List ℕ → Bytes
at a [] i = 0
at zero (b ∷ bs) zero = b
at zero (b ∷ bs) (suc i) = at zero bs i
at (suc a) (b ∷ bs) zero = 0
at (suc a) (b ∷ bs) (suc i) = at a (b ∷ bs) i

abbrev pub boot : Bytes → Vm (Unit {0})
boot mem = record {
  userdata = tt;
  memory_size = 65536;
  wsp = 0;
  rsp = 0;
  ws = λ _. 0;
  rs = λ _. 0;
  device = λ _. 0;
  memory = mem;
}

abbrev Fit8 : List ℕ → Type 0
Fit8 [] = Unit
Fit8 (b ∷ bs) = (b < 256) × Fit8 bs

pub at-AllBytes : (a : ℕ) (bs : List ℕ) → Fit8 bs → AllBytes (at a bs)
at-AllBytes a [] h i = omega arith
at-AllBytes zero (b ∷ bs) h zero = h.0
at-AllBytes zero (b ∷ bs) h (suc i) = at-AllBytes zero bs h.1 i
at-AllBytes (suc a) (b ∷ bs) h zero = omega arith
at-AllBytes (suc a) (b ∷ bs) h (suc i) = at-AllBytes a (b ∷ bs) h i

boot-IsValid : (mem : Bytes) → AllBytes mem → IsValid (boot mem)
boot-IsValid mem h = record {
  wsp = omega arith;
  rsp = omega arith;
  ws = λ i. omega arith;
  rs = λ i. omega arith;
  device = λ i. omega arith;
  memory = h;
}

quiet-HostIsValid : HostIsValid quiet
quiet-HostIsValid = record { dei = λ vm a h _. h; deo = λ vm a h _. h }

-- The working stack's pointer and its two lowest bytes after a run.
abbrev outcome : Status (Unit {0}) → Option (ℕ × ℕ × ℕ)
outcome (returned vm) = some (vm.wsp, vm.ws 0, vm.ws 1)
outcome _ = none

-- LIT 03 LIT 04 ADD BRK
abbrev adds : Bytes
adds = at 0x100 (0x80 ∷ 3 ∷ 0x80 ∷ 4 ∷ 0x18 ∷ 0 ∷ [])

-- LIT2 ffff LIT2 0003 MUL2 BRK
abbrev multiplies_code : List ℕ
multiplies_code = 0xa0 ∷ 0xff ∷ 0xff ∷ 0xa0 ∷ 0 ∷ 3 ∷ 0x3a ∷ 0 ∷ []

abbrev multiplies : Bytes
multiplies = at 0x100 multiplies_code

go : ℕ → Bytes → Option (ℕ × ℕ × ℕ)
unfolding execute uop_push uop_load uop_pop uop_jmp uop_store uop_dev_in uop_dev_out
go fuel mem = outcome (execute quiet none fuel (boot mem) 0x100)

runs : (go 9 adds ≡ some (1, 7, 4)) × (go 9 multiplies ≡ some (2, 0xff, 0xfd))
unfolding go
runs = (refl, refl)

execute-StatusIsValid_example : StatusIsValid (execute quiet none 9 (boot multiplies) 0x100)
execute-StatusIsValid_example =
    execute-StatusIsValid quiet quiet-HostIsValid none tt 9 (boot multiplies) 0x100
      (boot-IsValid multiplies (at-AllBytes 0x100 multiplies_code (omega arith))) (omega arith)

dispatch-total_example : (op : Op) × (dispatch 0x3a ≡ some op) × (value op ≡ 0x3a)
dispatch-total_example = dispatch-total 0x3a (omega arith)

-- A hook that moves the saved working stack pointer.
execute-same_example :
    settle (execute quiet (some (λ vm pc. record vm { wsp = vm.wsp + 1 })) 9 (boot adds) 0x100)
    ≡ settle (execute quiet none 9 (boot adds) 0x100)
execute-same_example =
    execute-same quiet (λ vm pc. record vm { wsp = vm.wsp + 1 }) (λ vm pc. refl) 9 (boot adds) 0x100

-- Three bytes on a stack whose pointer has wrapped around to 1.
abbrev wrapped : Cpu (Unit {0})
wrapped = record {
  vm = record (boot adds) { ws = at 0 (33 ∷ []) };
  pc = 0x105;
  wsp = 1;
  rsp = 0;
  kwsp = 0;
  krsp = 0;
}

impl_op-Effect_example :
    Effect false
      (0 ∷ 33 ∷ 0 ∷ 33 ∷ 0 ∷ 0 ∷ [])
      wrapped
      (impl_op quiet (poly rot true false false) wrapped).1
unfolding ptr stack
impl_op-Effect_example =
    impl_op-Effect quiet rot true false false wrapped (33 ∷ 0 ∷ 0 ∷ []) [] refl (omega arith)
      (omega arith) (omega arith) (omega arith)

dispatch-value_example :
    dispatch (value (poly rot true false true)) ≡ some (poly rot true false true)
dispatch-value_example = dispatch-value (poly rot true false true)

-- Five bytes on the stack, and a call with the offset 5 behind 0x0110.
abbrev caller : Cpu (Unit {0})
caller = record wrapped { pc = 0x111; rsp = 255 }

abbrev called : Cpu (Unit {0})
called = (impl_op quiet (poly jsr false false false) caller).1

return-jsr_example :
    ((return_op quiet called).pc ≡ caller.pc) × ((return_op quiet called).rsp ≡ caller.rsp)
return-jsr_example =
    return-jsr quiet caller called (omega arith) false false (omega arith) refl refl

load-store_example :
    (uop_load true 256 255 (stored true true 255 0x1234 wrapped)).0 ≡ wrap true 0x1234
load-store_example = load-store true true 255 0x1234 wrapped

reset-Regions_example : Regions (boot adds) 5 (reset (boot adds) 5)
reset-Regions_example = reset-Regions (boot adds) 5 (omega arith)
