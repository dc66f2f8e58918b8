-- ===== src/Vm.antt =====
-- The uxn virtual machine (src/vm/vm.c, src/vm/exec.h, include/buxn/vm/).
pub mod State
pub mod Opcode
pub mod Cpu
pub mod Exec
pub mod Reset
pub mod Tests
pub mod Valid
pub mod Dispatch
pub mod Spec
pub mod Hooks
pub mod Calls
pub mod Memory
