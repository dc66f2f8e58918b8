-- ===== src/Vm/Hooks.antt =====
-- src/vm/vm.c: the interpreter with a hook and the one without it.
mod Blind
pub mod Same
