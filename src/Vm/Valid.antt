-- ===== src/Vm/Valid.antt =====
-- src/vm/exec.h: every value stays within its C type, whatever the program does.
pub mod Uops
pub mod Ops
pub mod Run
