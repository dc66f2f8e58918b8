-- ===== src/Vm/Spec.antt =====
-- The stack notation of the opcodes in src/vm/exec.h ("a b -- b a"), on lists without pointers: the
-- reference that the circular stacks of the machine are compared with.
pub mod Lists
pub mod Reads
pub mod Words
pub mod Refine
