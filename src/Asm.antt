-- ===== src/Asm.antt =====
-- src/asm/asm.c: the assembler.
pub mod State
pub mod Report
pub mod Lexer
pub mod Expand
pub mod Emit
pub mod Symbols
pub mod Label
pub mod Ref
pub mod Literal
pub mod Macro
pub mod Nest
pub mod Process
pub mod Resolve
pub mod Evolve
pub mod Settled
pub mod Jump
pub mod Mnemonic
pub mod Hamt
pub mod Tests
pub mod Text
pub mod Opcode
pub mod Number
