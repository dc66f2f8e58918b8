-- ===== src/Vm/Reset/Regions.antt =====
-- src/vm/vm.c: which bytes `buxn_vm_reset` clears.
use buxn.Prelude.{ℕ, ◌≤◌, ◌≡◌, Bool, arith, ◌&&◌, ◌||◌, ltb, leb, if◌then◌else◌}
use buxn.Vm.State.{Vm}
use buxn.Vm.Reset.{has_flag, reset, reset_zero_page, reset_high_mem, reset_device, reset_stack}

-- A field after a reset: cleared or as it was.
abbrev cleared : Bool → ℕ → ℕ
cleared b old = if b then 0 else old

module _ {W : Type 0} (vm : Vm W) (flags : ℕ) where
  -- A reset clears exactly what its flags name: the stacks with both pointers, the 256 device bytes,
  -- the memory below 0x0100, and the memory from there to its end; all else stays.
  pub record Regions (vm' : Vm W) : Type 0 where
    pub wsp : vm'.wsp ≡ cleared (has_flag flags reset_stack) vm.wsp
    pub rsp : vm'.rsp ≡ cleared (has_flag flags reset_stack) vm.rsp
    pub ws : (i : ℕ) → vm'.ws i ≡ cleared (has_flag flags reset_stack && ltb i 256) (vm.ws i)
    pub rs : (i : ℕ) → vm'.rs i ≡ cleared (has_flag flags reset_stack && ltb i 256) (vm.rs i)
    pub device :
        (i : ℕ) → vm'.device i ≡ cleared (has_flag flags reset_device && ltb i 256) (vm.device i)
    pub memory :
        (i : ℕ)
        → vm'.memory i
          ≡ cleared
              ((has_flag flags reset_zero_page && ltb i 0x100)
                || (has_flag flags reset_high_mem && (leb 0x100 i && ltb i vm.memory_size)))
              (vm.memory i)
    pub userdata : vm'.userdata ≡ vm.userdata
    pub memory_size : vm'.memory_size ≡ vm.memory_size

module _ {W : Type 0} (vm : Vm W) (flags : ℕ) where
  -- For any flags, a reset of a machine with at least 0x0100 bytes of memory clears exactly what its
  -- flags name: the stacks with both pointers, the 256 device bytes, the memory below 0x0100, and
  -- the memory from there to its end. All else stays.
  pub reset-Regions : 0x100 ≤ vm.memory_size → Regions vm flags (reset vm flags)
  unfolding reset
  reset-Regions h = record {
    wsp = ground arith;
    rsp = ground arith;
    ws = λ i. ground arith;
    rs = λ i. ground arith;
    device = λ i. ground arith;
    memory = λ i. ground arith;
    userdata = ground arith;
    memory_size = ground arith;
  }
