-- ===== src/Vm/Memory.antt =====
-- include/buxn/vm/vm.h, src/vm/exec.h: stores and loads of bytes and shorts.
use buxn.Prelude.{ℕ, ◌+◌, ◌%◌, ◌≡◌, ◌≢◌, Bool, true, false, arith}
use buxn.Vm.Cpu.{Cpu, uop_load, uop_store}

-- The size of the address space: the zero page of `LDZ` and `STZ`, or the 64 KiB of the others.
abbrev space : Bool → ℕ
space true = 256
space false = 65536

abbrev pub wrap : Bool → ℕ → ℕ
wrap false v = v % 256
wrap true v = v % 65536

module _ {W : Type 0} (zero_page s : Bool) (addr v : ℕ) (c : Cpu W) where
  abbrev pub stored : Cpu W
  stored = (uop_store s (space zero_page) addr v c).1

  -- A word stored at any address, also across the end of the address space, is the word that is
  -- loaded from there, cut to its width.
  pub load-store : (uop_load s (space zero_page) addr stored).0 ≡ wrap s v
  unfolding uop_load uop_store
  load-store = ground arith

  -- Every byte but the one or two of the word is as before.
  pub store_elsewhere :
      (i : ℕ)
      → i ≢ addr % space zero_page
      → i ≢ (addr + 1) % space zero_page
      → stored.vm.memory i ≡ c.vm.memory i
  unfolding uop_store
  store_elsewhere i h h' = ground arith
