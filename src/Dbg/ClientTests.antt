-- ===== src/Dbg/ClientTests.antt =====
-- src/dbg/core.c, src/dbg/wire.c: a client's commands at concrete inputs.
use buxn.Prelude.{refl, arith, List, [], ◌∷◌, none, some, true, false, ◌≡◌}
use buxn.Vm.Tests.{quiet, at, boot}
use buxn.Dbg.State.{should_hook, Cmd, Answer, init}
use buxn.Dbg.Hook.{hook, Session, run_cmd, pause_loop}
use buxn.Dbg.Wire.{Msg, wire_ops}
use buxn.Dbg.Transcript.{client, Client, wire_to, Over, pause_loop-Over}
use buxn.Dbg.Idle.{hook_unneeded, told}
use buxn.Dbg.Access.{mem_read-mem_write}
use buxn.Dbg.Table.{init-TableIsValid}

-- A client that asks for a byte of memory, steps, and has another command for the next pause.
abbrev commands : List Cmd
commands = Cmd.mem_read 0x100 1 ∷ Cmd.step_in ∷ Cmd.resume ∷ []

abbrev session : List Cmd → Session (Unit {0}) Client
session cmds = record {
  vm = boot (at 0x100 (0x11 ∷ []));
  dbg = init;
  wire = wire_to false true Cmd.resume none cmds (Msg.begin_break 2 ∷ []);
}

pause_loop-Over_example :
    Over quiet 0x100
      (Cmd.resume ∷ [])
      (Msg.command_rep Cmd.step_in none
        ∷ Msg.command_rep (Cmd.mem_read 0x100 1) none
        ∷ Msg.paused
        ∷ Msg.begin_break 2
        ∷ [])
      (pause_loop quiet (wire_ops client) 0x100 3 true (session commands))
pause_loop-Over_example =
    pause_loop-Over quiet 0x100 commands false true Cmd.resume none (Msg.begin_break 2 ∷ []) 3
      (session commands) (Cmd.resume ∷ [])
      (Msg.command_rep Cmd.step_in none
        ∷ Msg.command_rep (Cmd.mem_read 0x100 1) none
        ∷ Msg.paused
        ∷ Msg.begin_break 2
        ∷ [])
      (omega arith) refl refl

mem_read-mem_write_example :
    (run_cmd quiet
      (wire_ops client)
      0x100
      (Cmd.mem_read 0xffff 2)
      (run_cmd quiet
        (wire_ops client)
        0x100
        (Cmd.mem_write 0xffff (7 ∷ 8 ∷ []))
        (session [])).1).1.wire
    ≡ record ((session []).wire) { answer = some (Answer.values_are (7 ∷ 8 ∷ [])) }
mem_read-mem_write_example =
    mem_read-mem_write quiet (wire_ops client) 0x100 0xffff (7 ∷ 8 ∷ []) (session []) (omega arith)

init-should_hook : should_hook (session []).dbg ≡ false
unfolding init should_hook
init-should_hook = refl

hook_unneeded_example :
    (s' : Session (Unit {0}) Client) × (hook quiet (wire_ops client) 0x100 0 (session []) ≡ some s')
    × (s'.vm ≡ (session []).vm)
    × (s'.wire ≡ told quiet (wire_ops client) 0x100 (session []))
    × (s'.dbg ≡ record init { executing = true })
    × (should_hook s'.dbg ≡ false)
hook_unneeded_example =
    hook_unneeded quiet (wire_ops client) 0x100 0 (session []) init-TableIsValid init-should_hook
