-- ===== src/Dbg/Tests.antt =====
-- src/dbg: the debugger at concrete inputs.
use buxn.Prelude.{
  lo_byte, Option, List, none, some, true, inr, arith, ◌≢◌, [], ◌≡◌, ◌∷◌, false, refl, ◌<◌,
}
use buxn.Vm.Tests.{at-AllBytes, quiet, at, boot}
use buxn.Dbg.State.{
  brkp_dev, brkp_store, Cmd, Answer, brkp_none, put_brkp, Dbg, Brkp, init, set_brkp,
}
use buxn.Dbg.Shortcut.{match_brkp-IsFirst, MasksFit, IsFirst}
use buxn.Dbg.Match.{decode, match_brkp}
use buxn.Vm.Opcode.{stz, poly, value}
use buxn.Dbg.Table.{init-TableIsValid, set_brkp-TableIsValid, TableIsValid, Stored}
use buxn.Vm.Cpu.{begin_keep, uop_store, uop_pop, Cpu}
use buxn.Dbg.Targets.{watched, IsAt}
use buxn.Dbg.Watch.{stz2-missed, store-reported}
use buxn.Dbg.Hook.{pause_loop, hook, Session}
use buxn.Vm.Exec.{impl_op}
use buxn.Vm.Reset.{has_flag}
use buxn.Vm.Valid.Uops.{IsValid}
use buxn.Dbg.Wire.{
  wire_next_command, wire_begin_break, wire_end_break, wire_ops, Wire, Msg, Protocol,
}
use buxn.Dbg.Pause.{hook-ends}

-- A store breakpoint at 0x0050 that pauses.
abbrev brkp : Brkp
brkp = record { addr = 0x50; mask = 18 }

abbrev dbg : Dbg
dbg = set_brkp 2 brkp init

set_brkp-TableIsValid_example :
    TableIsValid dbg × Stored 2 brkp init dbg × (set_brkp brkp_none brkp init ≡ init)
set_brkp-TableIsValid_example = set_brkp-TableIsValid 2 brkp init init-TableIsValid (omega arith)

dbg-TableIsValid : TableIsValid dbg
dbg-TableIsValid = (set_brkp-TableIsValid 2 brkp init init-TableIsValid (omega arith)).0

dbg-MasksFit : MasksFit dbg.brkps
unfolding init set_brkp put_brkp
dbg-MasksFit i = ground arith

-- STZ with the byte 7 and the address 0x50 on the stack.
abbrev storing : Cpu (Unit {0})
storing = record {
  vm = record (boot (at 0x100 (0x11 ∷ []))) { wsp = 2; ws = at 0 (7 ∷ 0x50 ∷ []) };
  pc = 0x101;
  wsp = 2;
  rsp = 0;
  kwsp = 0;
  krsp = 0;
}

match_brkp-IsFirst_example :
    IsFirst storing.vm 0x100 false
      (decode storing.vm 0x100)
      dbg.brkps
      0
      dbg.nbrkps
      (match_brkp dbg storing.vm 0x100 false)
match_brkp-IsFirst_example =
    match_brkp-IsFirst storing.vm 0x100 false dbg dbg-TableIsValid dbg-MasksFit

matched : match_brkp dbg storing.vm 0x100 false ≡ 2
unfolding match_brkp init set_brkp
matched = refl

storing-IsValid : IsValid storing.vm
storing-IsValid = record {
  wsp = omega arith;
  rsp = omega arith;
  ws = at-AllBytes 0 (7 ∷ 0x50 ∷ []) (omega arith);
  rs = λ i. omega arith;
  device = λ i. omega arith;
  memory = at-AllBytes 0x100 (0x11 ∷ []) (omega arith);
}

storing-IsAt : IsAt (poly stz false false false) 0x100 storing
unfolding value
storing-IsAt = record {
  opcode = refl;
  next = refl;
  wsp = refl;
  rsp = refl;
  valid = storing-IsValid;
}

-- The breakpoint is in the table, is for stores to memory, and the byte changes from 0 to 7.
dbg_facts :
    (2 < dbg.nbrkps)
    × ((dbg.brkps 2).addr ≡ 0x50)
    × (has_flag (dbg.brkps 2).mask brkp_store ≡ true)
    × (has_flag (dbg.brkps 2).mask brkp_dev ≡ false)
unfolding init set_brkp has_flag
dbg_facts = (omega arith, refl, refl, refl)

stored_seven : (impl_op quiet (poly stz false false false) storing).1.vm.memory 0x50 ≡ 7
unfolding impl_op uop_pop uop_store
stored_seven = refl

store-reported_example : match_brkp dbg storing.vm 0x100 false ≢ brkp_none
store-reported_example =
    store-reported quiet storing 0x100 0x50 dbg false (poly stz false false false) 2
      dbg-TableIsValid dbg-MasksFit dbg_facts.0 dbg_facts.1 dbg_facts.2 dbg_facts.3 storing-IsAt
      refl refl (λ e. absurd (omega (arith, stored_seven, e)))

-- STZ2 with the short 0x1234 and the address 0xff on the stack.
abbrev crossing : Cpu (Unit {0})
crossing = record {
  vm = record (boot (at 0x100 (0x31 ∷ []))) { wsp = 3; ws = at 0 (0x12 ∷ 0x34 ∷ 0xff ∷ []) };
  pc = 0x101;
  wsp = 3;
  rsp = 0;
  kwsp = 0;
  krsp = 0;
}

crossing-IsValid : IsValid crossing.vm
crossing-IsValid = record {
  wsp = omega arith;
  rsp = omega arith;
  ws = at-AllBytes 0 (0x12 ∷ 0x34 ∷ 0xff ∷ []) (omega arith);
  rs = λ i. omega arith;
  device = λ i. omega arith;
  memory = at-AllBytes 0x100 (0x31 ∷ []) (omega arith);
}

crossing-IsAt : IsAt (poly stz false false true) 0x100 crossing
unfolding value
crossing-IsAt = record {
  opcode = refl;
  next = refl;
  wsp = refl;
  rsp = refl;
  valid = crossing-IsValid;
}

stz2-missed_example :
    (watched (decode crossing.vm 0x100) 0 ≡ false)
    × ((impl_op quiet (poly stz false false true) crossing).1.vm.memory 0
        ≡ lo_byte
            (uop_pop false false true
              (uop_pop false false false (begin_keep false false crossing)).1).0)
stz2-missed_example = stz2-missed quiet crossing 0x100 false false crossing-IsAt refl

abbrev read_script : List Msg → List Msg × Option Msg
read_script [] = ([], none)
read_script (m ∷ ms) = (ms, some m)

-- A stream of messages that fails at its end, and one that holds what was written, newest first.
abbrev script : Protocol (List Msg) (List Msg)
script = record { read = read_script; write = λ o m. (m ∷ o, true) }

abbrev session : Session (Unit {0}) (Wire (List Msg) (List Msg))
session = record {
  vm = storing.vm;
  dbg = dbg;
  wire = record {
    input = some (Msg.command_req (Cmd.mem_read 0x100 1) ∷ Msg.command_req Cmd.step_over ∷ []);
    output = some [];
    should_send_reply = false;
    should_send_pause = false;
    cmd = Cmd.resume;
    answer = none;
  };
}

hook-ends_example :
    (s' : Session (Unit {0}) (Wire (List Msg) (List Msg))) × (hook quiet
        (wire_ops script)
        0x100
        3
        session
      ≡ some s')
hook-ends_example = hook-ends script quiet 0x100 2 3 session (omega arith) (inr (inr refl))

abbrev written : Option (Session (Unit {0}) (Wire (List Msg) (List Msg))) → Option (List Msg)
written none = none
written (some s) = s.wire.output

-- What the client sees of that pause.
talks :
    written (hook quiet (wire_ops script) 0x100 3 session)
    ≡ some (
        Msg.end_break
        ∷ Msg.command_rep Cmd.step_over none
        ∷ Msg.command_rep (Cmd.mem_read 0x100 1) (some (Answer.values_are (0x11 ∷ [])))
        ∷ Msg.paused
        ∷ Msg.begin_break 2
        ∷ Msg.begin_exec 0x100
        ∷ [])
unfolding hook pause_loop init wire_next_command wire_begin_break wire_end_break
talks = refl
