-- ===== src/Vm/Reset.antt =====
-- src/vm/vm.c: `buxn_vm_reset`, with its flags as in include/buxn/vm/vm.h.
pub mod Regions
use buxn.Prelude.{ℕ, ◌+◌, ◌-◌, ◌/◌, ◌%◌, Bool, ◌&&◌, ◌==◌, ltb, leb, not, if◌then◌else◌, Bytes}
use buxn.Vm.State.{Vm, reset_vector, stack_size, device_mem_size}

abbrev pub reset_none : ℕ
reset_none = 0

-- `1 << 1`, `1 << 2`, `1 << 3` and `1 << 4`
abbrev pub reset_zero_page : ℕ
reset_zero_page = 2

abbrev pub reset_high_mem : ℕ
reset_high_mem = 4

abbrev pub reset_device : ℕ
reset_device = 8

abbrev pub reset_stack : ℕ
reset_stack = 16

-- The flags joined by `|`: they have no bit in common.
abbrev pub reset_all : ℕ
reset_all = reset_zero_page + reset_high_mem + reset_device + reset_stack

abbrev pub reset_soft : ℕ
reset_soft = reset_high_mem + reset_stack

-- `(flags & flag) > 0` for a flag of one bit.
unfoldable pub has_flag : ℕ → ℕ → Bool
has_flag flags flag = not (flags / flag % 2 == 0)

-- `memset(bytes + start, value, length)`
unfoldable pub memset : ℕ → ℕ → ℕ → Bytes → Bytes
memset start value length bytes i = if leb start i && ltb i (start + length) then value else bytes i

module _ {W : Type 0} where
  unfoldable pub clear_stacks : Vm W → Vm W
  unfolding memset
  clear_stacks vm = record vm {
    wsp = 0;
    rsp = 0;
    ws = memset 0 0 stack_size vm.ws;
    rs = memset 0 0 stack_size vm.rs;
  }

  unfoldable pub clear_device : Vm W → Vm W
  unfolding memset
  clear_device vm = record vm { device = memset 0 0 device_mem_size vm.device }

  unfoldable pub clear_zero_page : Vm W → Vm W
  unfolding memset
  clear_zero_page vm = record vm { memory = memset 0 0 reset_vector vm.memory }

  -- `memory_size - BUXN_RESET_VECTOR` bytes from `BUXN_RESET_VECTOR` on.
  unfoldable pub clear_high_mem : Vm W → Vm W
  unfolding memset
  clear_high_mem vm = record vm {
    memory = memset reset_vector 0 (vm.memory_size - reset_vector) vm.memory;
  }

  -- `buxn_vm_reset`
  unfoldable pub reset : Vm W → ℕ → Vm W
  unfolding has_flag clear_stacks clear_device clear_zero_page clear_high_mem
  reset vm flags =
      let vm₁ = if has_flag flags reset_stack then clear_stacks vm else vm in
      let vm₂ = if has_flag flags reset_device then clear_device vm₁ else vm₁ in
      let vm₃ = if has_flag flags reset_zero_page then clear_zero_page vm₂ else vm₂ in
      if has_flag flags reset_high_mem then clear_high_mem vm₃ else vm₃
