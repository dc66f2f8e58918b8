-- ===== src/Device/System/Expansion.antt =====
-- src/devices/system.c: the memory expansion commands stay in memory and do what they say.
use Prim.Native.Nat.{min, max}
use buxn.Prelude.{
  ◌%◌, AllBytes, Bool-cases, Bytes, ℕ, ◌+◌, ◌-◌, ◌≤◌, ◌<◌, ◌≡◌, refl, ◌⊎◌, inl, inr, arith, ◌==◌,
  ◌&&◌, ltb, leb, if◌then◌else◌, u16, u32,
}
use buxn.Vm.State.{Vm, load2, dev_load2, mem_load2}
use buxn.Device.System.{bank_address, clamp_start, clamp_end, fill, copy, expand}
use buxn.Device.System.Copy.{
  memmove, copy_left-memmove, copy_right-memmove, copy_left_outside, copy_right_outside,
}

module _ {W : Type 0} (vm : Vm W) (op_addr length : ℕ) where
  -- The ranges that the copy commands work on: the addresses are cut to memory, where the last byte
  -- stands for all addresses behind it, and the length so that both ranges end within memory.
  abbrev pub source : ℕ
  source = clamp_start vm.memory_size (bank_address vm (op_addr + 3))

  abbrev pub target : ℕ
  target = clamp_start vm.memory_size (bank_address vm (op_addr + 7))

  abbrev pub moved : ℕ
  moved = min length (vm.memory_size - max source target)

module _ {W : Type 0} (vm : Vm W) (op_addr length : ℕ) (some_memory : 0 < vm.memory_size)
    (banks : vm.memory_size ≤ 1048576) (short : length < 65536) where
  clamp_start-lt : (start : ℕ) → clamp_start vm.memory_size start < vm.memory_size
  unfolding clamp_start
  clamp_start-lt start = ground arith

  copied :
      (s t : ℕ)
      → s < vm.memory_size
      → t < vm.memory_size
      → clamp_end vm.memory_size (u32 ((if ltb t s then s else t) + length))
          - (if ltb t s then s else t)
        ≡ min length (vm.memory_size - max s t)
  unfolding clamp_end
  copied s t hs ht = ground arith

  -- With one to sixteen banks of memory, or a part of them, and a length below 65536, the command
  -- 0x01 first cuts its two addresses to memory: one behind the end of memory stands for the last
  -- byte of memory. It then moves as many bytes as fit memory behind both cut addresses and changes
  -- no other byte, unless the cut target is behind the first and before the end of the bytes that
  -- are moved.
  pub copy-memmove_up :
      (target vm op_addr length ≤ source vm op_addr length)
        ⊎ (source vm op_addr length + moved vm op_addr length ≤ target vm op_addr length)
      → (q : ℕ)
      → (copy vm 1 op_addr length).memory q
        ≡ memmove
            (source vm op_addr length)
            (target vm op_addr length)
            (moved vm op_addr length)
            vm.memory
            q
  unfolding copy
  copy-memmove_up h q =
      rw
        (copied (source vm op_addr length) (target vm op_addr length) (clamp_start-lt _)
          (clamp_start-lt _))
        (copy_left-memmove (moved vm op_addr length) (source vm op_addr length)
          (target vm op_addr length) vm.memory q h)

  -- With one to sixteen banks of memory, or a part of them, and a length below 65536, the command
  -- 0x02 first cuts its two addresses to memory: one behind the end of memory stands for the last
  -- byte of memory. It then moves as many bytes as fit memory behind both cut addresses and changes
  -- no other byte, unless the cut source is behind the first and before the end of the bytes that
  -- are written.
  pub copy-memmove_down :
      (source vm op_addr length ≤ target vm op_addr length)
        ⊎ (target vm op_addr length + moved vm op_addr length ≤ source vm op_addr length)
      → (q : ℕ)
      → (copy vm 2 op_addr length).memory q
        ≡ memmove
            (source vm op_addr length)
            (target vm op_addr length)
            (moved vm op_addr length)
            vm.memory
            q
  unfolding copy
  copy-memmove_down h q =
      let s = source vm op_addr length in
      let t = target vm op_addr length in
      rw (copied s t (clamp_start-lt _) (clamp_start-lt _))
        (copy_right-memmove (moved vm op_addr length) s t vm.memory q h)

  -- With one to sixteen banks of memory, or a part of them, and a length below 65536, the command
  -- 0x00 sets the bytes from the address, cut to memory, up to its length or the end of memory, to
  -- the byte at `op_addr + 7`, and changes no other.
  pub fill_lem :
      (q : ℕ)
      → (fill vm op_addr length).memory q ≡ (
          if leb (source vm op_addr length) q
            && (ltb q (source vm op_addr length + length) && ltb q vm.memory_size)
          then vm.memory (op_addr + 7)
          else vm.memory q)
  unfolding fill
  fill_lem q = ground (arith, clamp_start-lt (bank_address vm (op_addr + 3)))

  fill_outside : (q : ℕ) → vm.memory_size ≤ q → (fill vm op_addr length).memory q ≡ vm.memory q
  fill_outside q h = ground (arith, fill_lem q)

  copy_outside :
      (op q : ℕ) → vm.memory_size ≤ q → (copy vm op op_addr length).memory q ≡ vm.memory q
  unfolding copy
  copy_outside op q h =
      let s = source vm op_addr length in
      let t = target vm op_addr length in
      let n = moved vm op_addr length in
      let hs = clamp_start-lt (bank_address vm (op_addr + 3)) in
      let ht = clamp_start-lt (bank_address vm (op_addr + 7)) in
      rw (copied s t hs ht) elim (Bool-cases (op == 1)) [
        | inl e ↦ rw e (copy_left_outside n 0 s t vm.memory q (omega arith))
        | inr e ↦ rw e (copy_right_outside n 1 n s t vm.memory q (omega arith) (omega arith) refl)
      ]

load2-lt : (bytes : Bytes) (addr size : ℕ) → AllBytes bytes → load2 bytes addr size < 65536
unfolding load2
load2-lt bytes addr size h = omega (arith, h (addr % size), h ((addr + 1) % size))

module _ {W : Type 0} (vm : Vm W) where
  -- Whatever command stands in memory, with one to sixteen banks of memory, no byte behind the end of
  -- memory is written.
  pub expand_outside :
      0 < vm.memory_size
      → vm.memory_size ≤ 1048576
      → AllBytes vm.memory
      → (q : ℕ) → vm.memory_size ≤ q
      → (expand vm).memory q ≡ vm.memory q
  unfolding expand
  expand_outside p h bytes q hq =
      let n = load2-lt vm.memory (u16 (dev_load2 vm 0x02 + 1)) 65536 bytes in
      ground (
        arith,
        fill_outside vm (dev_load2 vm 0x02) (mem_load2 vm (u16 (dev_load2 vm 0x02 + 1))) p h n q hq,
        copy_outside vm (dev_load2 vm 0x02) (mem_load2 vm (u16 (dev_load2 vm 0x02 + 1))) p h n
            (vm.memory (dev_load2 vm 0x02)) q hq,
      )
