-- ===== src/Vm/State.antt =====
-- include/buxn/vm/vm.h: the machine, its constants, and the loads and stores of bytes and shorts.
-- Arrays are functions from an index; `memory` has `memory_size` bytes.
use buxn.Prelude.{ℕ, ◌+◌, ◌*◌, ◌/◌, ◌%◌, u16, short, hi_byte, lo_byte, Bytes, update}

-- `struct buxn_vm_s`. `userdata` stands for what the host keeps behind `config.userdata`.
pub record Vm (W : Type 0) : Type 0 where
  pub userdata : W
  pub memory_size : ℕ
  pub wsp : ℕ
  pub rsp : ℕ
  pub ws : Bytes
  pub rs : Bytes
  pub device : Bytes
  pub memory : Bytes

-- What the host program provides: `buxn_vm_dei` and `buxn_vm_deo`.
pub record Host (W : Type 0) : Type 0 where
  pub dei : Vm W → ℕ → Vm W × ℕ
  pub deo : Vm W → ℕ → Vm W

abbrev pub stack_size : ℕ
stack_size = 256

abbrev pub reset_vector : ℕ
reset_vector = 0x0100

abbrev pub device_mem_size : ℕ
device_mem_size = 256

-- `(addr + 0) & addr_mask` and `(addr + 1) & addr_mask`; a mask of w ones is given as 2 ^ w.
unfoldable pub load2 : Bytes → ℕ → ℕ → ℕ
load2 mem addr size = short (mem (addr % size)) (mem ((addr + 1) % size))

unfoldable pub device_id : ℕ → ℕ
device_id address = address / 16 * 16

unfoldable pub device_port : ℕ → ℕ
device_port address = address % 16

module _ {W : Type 0} where
  unfoldable pub mem_load : Vm W → ℕ → ℕ
  mem_load vm addr = vm.memory addr

  unfoldable pub mem_load2 : Vm W → ℕ → ℕ
  mem_load2 vm addr = load2 vm.memory addr 65536

  unfoldable pub mem_store : Vm W → ℕ → ℕ → Vm W
  mem_store vm addr value = record vm { memory = update vm.memory addr value }

  unfoldable pub mem_store2 : Vm W → ℕ → ℕ → Vm W
  mem_store2 vm addr value = record vm {
    memory = update (update vm.memory (u16 addr) (hi_byte value)) (u16 (addr + 1)) (lo_byte value);
  }

  unfoldable pub dev_load : Vm W → ℕ → ℕ
  dev_load vm addr = vm.device addr

  unfoldable pub dev_load2 : Vm W → ℕ → ℕ
  dev_load2 vm addr = load2 vm.device addr 256
