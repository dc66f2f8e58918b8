-- ===== src/Device/System.antt =====
-- src/devices/system.c: the system device, its memory expansion commands and the palette.
pub mod Copy
pub mod Expansion
pub mod Palette
use buxn.Prelude.{
  ℕ, zero, suc, ◌+◌, ◌-◌, ◌*◌, ◌/◌, ◌%◌, ◌^◌, Bool, true, false, ◌||◌, ltb, leb, ◌==◌,
  if◌then◌else◌, u16, u32, Bytes, update, bit_or,
}
use buxn.Prelude.Int.{ℤ, pos, negsuc}
use buxn.Vm.State.{Vm, dev_load2, mem_load2}
use buxn.Vm.Reset.{memset}

-- What the host provides for the system device.
pub record SystemHost (W : Type 0) : Type 0 where
  pub debug : Vm W → ℕ → Vm W
  pub set_metadata : Vm W → ℕ → Vm W
  pub theme_changed : Vm W → Vm W

-- `for (i = 0; i < length; ++i) memory[dst + i] = memory[src + i]`, with the rounds left.
unfoldable pub copy_left : ℕ → ℕ → ℕ → ℕ → Bytes → Bytes
copy_left zero i src dst memory = memory
copy_left (suc left) i src dst memory =
    copy_left left (i + 1) src dst (update memory (dst + i) (memory (src + i)))

-- `for (i = 1; i <= length; ++i) memory[dst + length - i] = memory[src + length - i]`
unfoldable pub copy_right : ℕ → ℕ → ℕ → ℕ → ℕ → Bytes → Bytes
copy_right zero i length src dst memory = memory
copy_right (suc left) i length src dst memory =
    copy_right left (i + 1) length src dst
      (update memory (dst + length - i) (memory (src + length - i)))

-- `start < memory_size ? start : memory_size - 1` on `uint32_t`.
unfoldable pub clamp_start : ℕ → ℕ → ℕ
clamp_start memory_size start =
    if ltb start memory_size then start else u32 (memory_size + 4294967295)

-- `end <= memory_size ? end : memory_size`
unfoldable pub clamp_end : ℕ → ℕ → ℕ
clamp_end memory_size end = if leb end memory_size then end else memory_size

module _ {W : Type 0} where
  -- `bank * 0x10000 + addr`, from the two shorts at `at` and `at + 2`.
  unfoldable pub bank_address : Vm W → ℕ → ℕ
  unfolding mem_load2
  bank_address vm at = u32 (mem_load2 vm (u16 at) * 65536 + mem_load2 vm (u16 (at + 2)))

  -- The command 0x00. The fill value is read at `op_addr + 7`, which does not wrap around.
  unfoldable pub fill : Vm W → ℕ → ℕ → Vm W
  unfolding bank_address clamp_start clamp_end memset
  fill vm op_addr length =
      let start = clamp_start vm.memory_size (bank_address vm (op_addr + 3)) in
      let end = clamp_end vm.memory_size (u32 (start + length)) in
      record vm { memory = memset start (vm.memory (op_addr + 7)) (end - start) vm.memory }

  -- The commands 0x01, which copies upwards, and 0x02, which copies downwards.
  unfoldable pub copy : Vm W → ℕ → ℕ → ℕ → Vm W
  unfolding bank_address clamp_start clamp_end copy_left copy_right
  copy vm op op_addr length =
      let src = clamp_start vm.memory_size (bank_address vm (op_addr + 3)) in
      let dst = clamp_start vm.memory_size (bank_address vm (op_addr + 7)) in
      let max = if ltb dst src then src else dst in
      let end = clamp_end vm.memory_size (u32 (max + length)) in
      let n = end - max in
      if op == 1
      then record vm { memory = copy_left n 0 src dst vm.memory }
      else record vm { memory = copy_right n 1 n src dst vm.memory }

  -- A write to System/expansion.
  unfoldable pub expand : Vm W → Vm W
  unfolding dev_load2 mem_load2 fill copy
  expand vm =
      let op_addr = dev_load2 vm 0x02 in
      let op = vm.memory op_addr in
      let length = mem_load2 vm (u16 (op_addr + 1)) in
      if op == 0
      then fill vm op_addr length
      else if op == 1 || op == 2
      then copy vm op op_addr length
      else vm

  -- `buxn_system_exit_code`
  unfoldable pub exit_code : Vm W → ℤ
  exit_code vm = let state = vm.device 0x0f in if state == 0 then negsuc 0 else pos (state % 128)

  -- `buxn_system_dei`
  unfoldable pub system_dei : Vm W → ℕ → ℕ
  system_dei vm address =
      if address == 0x04 then vm.wsp else if address == 0x05 then vm.rsp else vm.device address

-- `buxn_system_deo`
module _ {W : Type 0} (host : SystemHost W) where
  unfoldable pub system_deo : Vm W → ℕ → Vm W
  unfolding expand dev_load2
  system_deo vm address =
      if address == 0x03
      then expand vm
      else if address == 0x04
      then record vm { wsp = vm.device address }
      else if address == 0x05
      then record vm { rsp = vm.device address }
      else if address == 0x07
      then host.set_metadata vm (dev_load2 vm 0x06)
      else if address == 0x09 || (address == 0x0b || address == 0x0d)
      then host.theme_changed vm
      else if address == 0x0e
      then (if vm.device address == 0 then vm else host.debug vm (vm.device address))
      else vm

-- `buxn_make_rgba`
unfoldable pub make_rgba : ℕ → ℕ → ℕ → ℕ
make_rgba r g b =
    bit_or
      (bit_or
        (bit_or (bit_or (bit_or (bit_or 0xff000000 (b * 2 ^ 20)) (b * 2 ^ 16)) (g * 2 ^ 12))
          (g * 2 ^ 8))
        (r * 2 ^ 4))
      r

-- `(c >> shift) & 0x0f`
unfoldable pub nibble : ℕ → ℕ → ℕ
nibble c shift = c / 2 ^ shift % 16

module _ {W : Type 0} where
  -- `buxn_system_palette`: the four colours.
  unfoldable pub palette : Vm W → ℕ → ℕ
  unfolding make_rgba nibble dev_load2
  palette vm i =
      let r = dev_load2 vm 0x08 in
      let g = dev_load2 vm 0x0a in
      let b = dev_load2 vm 0x0c in
      if i == 0
      then make_rgba (nibble r 12) (nibble g 12) (nibble b 12)
      else if i == 1
      then make_rgba (nibble r 8) (nibble g 8) (nibble b 8)
      else if i == 2
      then make_rgba (nibble r 4) (nibble g 4) (nibble b 4)
      else make_rgba (nibble r 0) (nibble g 0) (nibble b 0)
