-- ===== src/Vm/Valid/Uops.antt =====
-- src/vm/exec.h: the ranges of the locals and arrays, and the micro operations that keep them.
use buxn.Prelude.{
  ℕ, ◌<◌, u8, Bool, true, false, arith, if◌then◌else◌, Bytes, AllBytes, AllBytes-update,
}
use buxn.Vm.State.{Vm, Host}
use buxn.Vm.Cpu.{
  Cpu, Uop, ◌>>=◌, modify, gets, when, load_state, save_state, begin_keep, uop_pop, uop_push,
  uop_jmp, uop_load, uop_store, store_bytes,
}
use buxn.Vm.Exec.{dev_in1, uop_dev_in, dev_store, dev_notify, uop_dev_out, advance}

-- `uint8_t` pointers, and arrays of `uint8_t`.
pub record IsValid {W : Type 0} (vm : Vm W) : Type 0 where
  pub wsp : vm.wsp < 256
  pub rsp : vm.rsp < 256
  pub ws : AllBytes vm.ws
  pub rs : AllBytes vm.rs
  pub device : AllBytes vm.device
  pub memory : AllBytes vm.memory

pub record CpuIsValid {W : Type 0} (c : Cpu W) : Type 0 where
  pub vm : IsValid c.vm
  pub pc : c.pc < 65536
  pub wsp : c.wsp < 256
  pub rsp : c.rsp < 256
  pub kwsp : c.kwsp < 256
  pub krsp : c.krsp < 256

-- What the machine relies on: the host's callbacks keep the ranges too.
pub record HostIsValid {W : Type 0} (host : Host W) : Type 0 where
  pub dei : (vm : Vm W) (addr : ℕ) → IsValid vm → addr < 256 → IsValid (host.dei vm addr).0
  pub deo : (vm : Vm W) (addr : ℕ) → IsValid vm → addr < 256 → IsValid (host.deo vm addr)

-- The micro operation ends in valid locals if it starts in such.
pub record Keeps {W A : Type 0} (m : Uop W A) : Type 0 where
  pub at : (c : Cpu W) → CpuIsValid c → CpuIsValid (m c).1

pub store_bytes-AllBytes :
    (s : Bool) (size addr v : ℕ) (mem : Bytes)
    → AllBytes mem
    → AllBytes (store_bytes s size addr v mem)
unfolding store_bytes
store_bytes-AllBytes false size addr v mem h = AllBytes-update _ _ _ h (omega arith)
store_bytes-AllBytes true size addr v mem h =
    AllBytes-update _ _ _ (AllBytes-update _ _ _ h (omega arith)) (omega arith)

module _ {W : Type 0} where
  pub Keeps-bind :
      {A B : Type 0} (m : Uop W A) (f : A → Uop W B)
      → Keeps m
      → ((a : A) → Keeps (f a))
      → Keeps (m >>= f)
  Keeps-bind m f km kf = record { at = λ c h. (kf (m c).0).at (m c).1 (km.at c h) }

  pub Keeps-gets : {A : Type 0} (f : Cpu W → A) → Keeps (gets f)
  Keeps-gets f = record { at = λ c h. h }

  pub Keeps-skip : Keeps {W = W} (modify (λ c. c))
  Keeps-skip = record { at = λ c h. h }

  pub Keeps-if :
      {A : Type 0} (b : Bool) (m n : Uop W A) → Keeps m → Keeps n → Keeps (if b then m else n)
  Keeps-if true m n km kn = km
  Keeps-if false m n km kn = kn

  pub Keeps-when : (b : Bool) (m : Uop W (Unit {0})) → Keeps m → Keeps (when b m)
  Keeps-when true m km = km
  Keeps-when false m km = Keeps-skip

  pub Keeps-save_state : Keeps {W = W} (modify save_state)
  unfolding save_state
  Keeps-save_state = record { at = λ c h. ground arith }

  pub Keeps-load_state : Keeps {W = W} (modify load_state)
  unfolding load_state
  Keeps-load_state = record { at = λ c h. ground arith }

  pub Keeps-begin_keep : (k r : Bool) → Keeps {W = W} (modify (begin_keep k r))
  unfolding begin_keep
  Keeps-begin_keep k r = record { at = λ c h. ground arith }

  pub Keeps-uop_pop : (k r s : Bool) → Keeps {W = W} (uop_pop k r s)
  unfolding uop_pop
  Keeps-uop_pop k r s = record { at = λ c h. ground arith }

  pub Keeps-uop_push : (r s : Bool) (v : ℕ) → Keeps {W = W} (uop_push r s v)
  unfolding uop_push
  Keeps-uop_push r s v = record { at = λ c h. ground arith }

  pub Keeps-uop_jmp : (s : Bool) (v : ℕ) → Keeps {W = W} (uop_jmp s v)
  unfolding uop_jmp
  Keeps-uop_jmp s v = record { at = λ c h. ground arith }

  pub Keeps-advance : (n : ℕ) → Keeps {W = W} (advance n)
  unfolding advance
  Keeps-advance n = record { at = λ c h. ground arith }

  pub Keeps-uop_load : (s : Bool) (size addr : ℕ) → Keeps {W = W} (uop_load s size addr)
  unfolding uop_load
  Keeps-uop_load false size addr = record { at = λ c h. h }
  Keeps-uop_load true size addr = record { at = λ c h. h }

  pub Keeps-uop_store : (s : Bool) (size addr v : ℕ) → Keeps {W = W} (uop_store s size addr v)
  unfolding uop_store
  Keeps-uop_store s size addr v = record {
    at = λ c h. ground (arith, store_bytes-AllBytes s size addr v c.vm.memory);
  }

  Keeps-dev_store : (s : Bool) (addr v : ℕ) → Keeps {W = W} (dev_store s addr v)
  unfolding dev_store
  Keeps-dev_store s addr v = record {
    at = λ c h. ground (arith, store_bytes-AllBytes s 256 addr v c.vm.device);
  }

module _ {W : Type 0} (host : Host W) (hh : HostIsValid host) where
  Keeps-dev_in1 : (addr : ℕ) → Keeps (dev_in1 host addr)
  unfolding dev_in1
  Keeps-dev_in1 addr = record {
    at = λ c h. record {
      vm = hh.dei c.vm (u8 addr) h.vm (omega arith);
      pc = h.pc;
      wsp = h.wsp;
      rsp = h.rsp;
      kwsp = h.kwsp;
      krsp = h.krsp;
    };
  }

  Keeps-dev_notify : (addr : ℕ) → Keeps (dev_notify host addr)
  unfolding dev_notify
  Keeps-dev_notify addr = record {
    at = λ c h. record {
      vm = hh.deo c.vm (u8 addr) h.vm (omega arith);
      pc = h.pc;
      wsp = h.wsp;
      rsp = h.rsp;
      kwsp = h.kwsp;
      krsp = h.krsp;
    };
  }

  ruleset dev_rules = (Keeps-bind, Keeps-gets, Keeps-dev_in1, Keeps-dev_store, Keeps-dev_notify)

  pub Keeps-uop_dev_in : (s : Bool) (addr : ℕ) → Keeps (uop_dev_in host s addr)
  unfolding uop_dev_in
  Keeps-uop_dev_in false addr = Keeps-dev_in1 addr
  Keeps-uop_dev_in true addr = search dev_rules

  pub Keeps-uop_dev_out : (s : Bool) (addr v : ℕ) → Keeps (uop_dev_out host s addr v)
  unfolding uop_dev_out
  Keeps-uop_dev_out false addr v = search dev_rules
  Keeps-uop_dev_out true addr v = search dev_rules
