-- ===== src/Lib.antt =====
-- buxn: a virtual machine for uxn, the devices of varvara, and a debugger.
--
-- The program has a machine (src/vm), devices that the host wires to it (src/devices), and a debugger
-- (src/dbg) that runs inside a hook of the interpreter. The machine calls the host for each device
-- port that a program reads or writes; a device calls the machine back through the vector that the
-- program stored at its port; the debugger's core is called before each opcode and talks to a client
-- over a wire.
--
-- The machine, `Vm`:
--   Vm/State     `buxn_vm_t`, and the loads and stores of include/buxn/vm/vm.h. Arrays are functions
--                from an index. `Host` has the two functions that a host must provide.
--   Vm/Opcode    the table of include/buxn/vm/opcodes.h, and the dispatch that it generates.
--   Vm/Cpu       the locals of the interpreter and the micro operations of src/vm/exec.h, as a state
--                monad over the locals, with the unsigned wrap-around written out.
--   Vm/Exec      each opcode by its micro operations, one round of the loop, and `buxn_vm_execute`.
--                The loop takes as fuel the number of rounds; a program may run forever, so its
--                theorems hold for every number of rounds.
--   Vm/Reset     `buxn_vm_reset`.
--   Vm/Dispatch, Vm/Valid, Vm/Spec, Vm/Hooks, Vm/Calls, Vm/Memory, Vm/Reset/Regions have the proofs.
--
-- The assembler, `Asm`, of src/asm/asm.c and include/buxn/asm/asm.h:
--   Asm/Text, Asm/Opcode, Asm/Number   strings, mnemonics and numbers.
--   Asm/State, Asm/Report   `buxn_asm_t` with what the host has been told: the ROM, the symbols and the
--                           reports. A call is an action on this state that returns a value, returns
--                           false, or is out of fuel. Strings are values, so interned ones are equal
--                           where the code's pointers are; the tables are lists, in which the same
--                           symbols are found as in the tries of src/asm/hamt.h.
--   Asm/Lexer, Asm/Expand   tokens of files and of macros. A file is what `fgetc` gives, in order.
--   Asm/Emit, Asm/Symbols, Asm/Label, Asm/Ref   bytes, symbols, labels, references and lambdas.
--   Asm/Literal, Asm/Macro, Asm/Nest, Asm/Process, Asm/Resolve   the runes, macros, includes, the loop
--                           of a unit, and `buxn_asm`. The host's files are a function from a path.
--                           The fuel bounds the rounds of each loop and the nesting; for the
--                           tokenizer, one more than the characters that are left is enough.
--   Asm/Hamt                src/asm/hamt.h: the search in a trie, for any hash.
--   Asm/Evolve (what each call keeps), Asm/Settled, Asm/Mnemonic, Asm/Jump, Asm/Lexer/Ends,
--   Asm/Lexer/Sizes, Asm/Number/Bounds and Asm/Hamt/Lookup have the proofs.
--
-- The devices, `Device`:
--   Device/Vector    a call of the machine by a device.
--   Device/System    src/devices/system.c; the children prove the loops of the expansion port, its
--                    commands, and the palette.
--   Device/Console   src/devices/console.c; Device/Console/Args proves how arguments arrive.
--   Device/Buttons   src/devices/controller.c, src/devices/mouse.c and the masks of their headers.
--   Device/Datetime  src/devices/datetime.c, with the result of `localtime` as an argument.
--   Device/Screen    the output ports of src/devices/screen.c and, in Device/Screen/Sprites, its sprites.
--                    An `int` is the 32-bit number that has its bits; a loop takes its rounds.
--   Device/Audio     the output port of src/devices/audio.c and what its messages do.
--   Device/File      src/devices/file.c without its output ports, and Device/File/Ports with them. The
--                    host's files are a record of functions. The loops take as fuel their rounds; as
--                    many as bytes are asked for, at most 65535, are enough, since a round that moves
--                    none is the last. The other children have the proofs.
--
-- The debugger, `Dbg`:
--   Dbg/State   the commands and the state of src/dbg/core.c, and the table of breakpoints.
--   Dbg/Match   how the hook decodes the next opcode and finds a breakpoint.
--   Dbg/Hook    the commands of a pause and `buxn_dbg_hook`, over a record of what the core asks of a
--               wire. The loop of a pause takes as fuel the number of commands; fuel beyond the number
--               of messages before the first that fails is enough, since each round reads one.
--   Dbg/Wire    src/dbg/wire.c, which fills that record. How a message is coded is a parameter.
--   Dbg/Table, Dbg/Shortcut, Dbg/Frame, Dbg/Targets, Dbg/Watch, Dbg/Pause, Dbg/Access,
--   Dbg/Idle and Dbg/Transcript have the proofs.
--
-- `Prelude` has the shared names, Boolean tests, machine words and arrays. The modules called Tests
-- have runs and instances of the theorems at concrete inputs.
--
-- Not modelled: the screen device's fill mode, input ports, size and renderer; the audio device's input ports, envelope and renderer; the type
-- checker and the annotations of the assembler, and the lexeme in its reports (src/asm); the debugger's message coding, symbol table and transports; the
-- tools and front ends, and the platform code. The order of the two calls of the host for `DEI2`,
-- which C leaves open, is taken to be from left to right.
pub mod Prelude
pub mod Vm
pub mod Asm
pub mod Device
pub mod Dbg
