-- ===== src/Dbg/Transcript.antt =====
-- src/dbg/core.c, src/dbg/wire.c: what a client gets to see of a pause.
use mathlib.Core.Option
use buxn.Prelude.{
  ap, ◌≤◌, map, length, ◌==◌, not, inr, inl, Bool-cases, ◌≡◌, if◌then◌else◌, ℕ, zero, suc, refl,
  arith, List, [], ◌∷◌, Option, none, some, Bool, true, false,
}
use buxn.Dbg.State.{brkp_none, Cmd, Answer, InfoType}
use buxn.Dbg.Hook.{Session, run_cmd, run_info, pause_loop}
use buxn.Dbg.Wire.{Msg, Protocol, Wire, wire_ops, wire_next_command, wire_end_break}
use buxn.Vm.State.{Host}

-- A client that sends a list of commands, and a list of the messages that it got, newest first.
abbrev next_request : List Cmd → List Cmd × Option Msg
next_request [] = ([], none)
next_request (c ∷ cs) = (cs, some (Msg.command_req c))

abbrev pub client : Protocol (List Cmd) (List Msg)
client = record { read = next_request; write = λ o msg. (msg ∷ o, true) }

abbrev pub Client : Type 0
Client = Wire (List Cmd) (List Msg)

-- The command ends the pause.
abbrev pub resumes : Cmd → Bool
resumes Cmd.resume = true
resumes Cmd.step_over = true
resumes Cmd.step_in = true
resumes Cmd.step_out = true
resumes _ = false

-- A message without the answer that it carries.
abbrev pub strip : Msg → Msg
strip (Msg.command_rep cmd _) = Msg.command_rep cmd none
strip msg = msg

-- The replies to the commands up to the first that ends the pause, behind `o`, and the commands left.
abbrev pub exchange : List Cmd → List Msg → Option (List Cmd × List Msg)
exchange [] o = none
exchange (c ∷ cs) o =
    let rest = exchange cs (Msg.command_rep c none ∷ o) in
    if resumes c then some (cs, Msg.command_rep c none ∷ o) else rest

-- A wire to a client that has yet to be sent a reply, or to be told of the pause.
abbrev pub wire_to : Bool → Bool → Cmd → Option Answer → List Cmd → List Msg → Client
wire_to reply pause cmd answer cmds o = record {
  input = some cmds;
  output = some o;
  should_send_reply = reply;
  should_send_pause = pause;
  cmd = cmd;
  answer = answer;
}

-- What is sent before the next command is read.
abbrev pub pending : Bool → Bool → Cmd → Option Answer → List Msg → List Msg
pending reply pause cmd answer o =
    let o' = if pause then Msg.paused ∷ o else o in
    if reply then Msg.command_rep cmd answer ∷ o' else o'

next_command-wire_to :
    (reply pause : Bool) (cmd : Cmd) (answer : Option Answer) (c : Cmd) (cs : List Cmd)
    (o : List Msg)
    → wire_next_command client (wire_to reply pause cmd answer (c ∷ cs) o)
      ≡ (wire_to true false c none cs (pending reply pause cmd answer o), c)
unfolding wire_next_command
next_command-wire_to true true cmd answer c cs o = refl
next_command-wire_to true false cmd answer c cs o = refl
next_command-wire_to false true cmd answer c cs o = refl
next_command-wire_to false false cmd answer c cs o = refl

module _ {W : Type 0} (host : Host W) (pc : ℕ) where
  abbrev Ran : Cmd → Session W Client → Bool × Session W Client → Type 0
  Ran c s (paused, s') =
      (paused ≡ not (resumes c)) × (a : Option Answer) × (s'.wire ≡ record (s.wire) { answer = a })

  run_cmd-Ran : (c : Cmd) (s : Session W Client) → Ran c s (run_cmd host (wire_ops client) pc c s)
  unfolding run_cmd run_info
  run_cmd-Ran (Cmd.info InfoType.pc) s = (refl, _, refl)
  run_cmd-Ran (Cmd.info InfoType.wst) s = (refl, _, refl)
  run_cmd-Ran (Cmd.info InfoType.rst) s = (refl, _, refl)
  run_cmd-Ran (Cmd.info InfoType.nbrkps) s = (refl, _, refl)
  run_cmd-Ran Cmd.step_out s = (refl, s.wire.answer, ground arith)
  run_cmd-Ran (Cmd.brkp_get id) s = elim (Bool-cases (id == brkp_none)) [
    | inl e ↦ rw e (refl, s.wire.answer, refl)
    | inr e ↦ rw e (refl, _, refl)
  ]
  run_cmd-Ran c s = (refl, _, refl)

  -- The pause is over: the commands left, and the messages from the last one on.
  abbrev pub Over : List Cmd → List Msg → Option (Session W Client) → Type 0
  Over cs o result =
      (s : Session W Client) × (result ≡ some s)
      × ((wire_end_break client s.wire).input ≡ some cs)
      × (Option.map (map strip) (wire_end_break client s.wire).output ≡ some (Msg.end_break ∷ o))

  last-Over :
      (c : Cmd) (a : Option Answer) (cs : List Cmd) (o o' : List Msg) (s : Session W Client)
      → s.wire ≡ wire_to true false c a cs o
      → map strip o ≡ o'
      → Over cs (Msg.command_rep c none ∷ o') (some s)
  unfolding wire_end_break
  last-Over c a cs o o' s e m = (s, refl, rw e refl, rw (e, m) refl)

  abbrev OverIf : Option (List Cmd × List Msg) → Option (Session W Client) → Type 0
  OverIf none result = Unit
  OverIf (some (cs, o)) result = Over cs o result

  pause_loop-next :
      (fuel : ℕ) (s : Session W Client) (wire : Client) (c : Cmd)
      → wire_next_command client s.wire ≡ (wire, c)
      → pause_loop host (wire_ops client) pc (suc fuel) true s
        ≡ pause_loop host
            (wire_ops client)
            pc
            fuel
            (run_cmd host (wire_ops client) pc c (record s { wire = wire })).0
            (run_cmd host (wire_ops client) pc c (record s { wire = wire })).1
  unfolding pause_loop
  pause_loop-next fuel s wire c e =
      let ran : Client × Cmd → Bool × Session W Client =
        λ x. run_cmd host (wire_ops client) pc x.1 (record s { wire = x.0 }) in
      ap (λ x. pause_loop host (wire_ops client) pc fuel (ran x).0 (ran x).1) e

  pause_loop-off :
      (fuel : ℕ) (s : Session W Client) → pause_loop host (wire_ops client) pc fuel false s ≡ some s
  unfolding pause_loop
  pause_loop-off fuel s = refl

  pause_loop-OverIf :
      (cmds : List Cmd) (reply pause : Bool) (cmd : Cmd) (answer : Option Answer) (o : List Msg)
      (fuel : ℕ) (s : Session W Client)
      → length cmds ≤ fuel
      → s.wire ≡ wire_to reply pause cmd answer cmds o
      → OverIf
          (exchange cmds (map strip (pending reply pause cmd answer o)))
          (pause_loop host (wire_ops client) pc fuel true s)
  pause_loop-OverIf [] reply pause cmd answer o fuel s le w = tt
  pause_loop-OverIf (c ∷ cmds) reply pause cmd answer o zero s le w = absurd (omega arith)
  pause_loop-OverIf (c ∷ cmds) reply pause cmd answer o (suc fuel) s le w =
      let p = pending reply pause cmd answer o in
      let wire₁ = wire_to true false c none cmds p in
      let next : wire_next_command client s.wire ≡ (wire₁, c) =
        rw w (next_command-wire_to reply pause cmd answer c cmds o) in
      let s₁ : Session W Client = record s { wire = wire₁ } in
      let r = run_cmd host (wire_ops client) pc c s₁ in
      let (b, a, e) = run_cmd-Ran c s₁ in
      elim (Bool-cases (resumes c)) [
        | inl y ↦
            rw (pause_loop-next fuel s wire₁ c next, b, y, pause_loop-off fuel r.1)
              (last-Over c a cmds p (map strip p) r.1 e refl)
        | inr n ↦
            rw (pause_loop-next fuel s wire₁ c next, b, n)
              (pause_loop-OverIf cmds true false c a p fuel r.1 (omega arith) e)
      ]

  -- A pause in which the client sends the commands `cmds`, of which one ends it, with as much fuel as
  -- there are commands: the client is told of the pause if it is to be told, gets exactly one reply to
  -- each command, in their order, and the end of the break; the commands behind the one that ends the
  -- pause stay unread.
  pub pause_loop-Over :
      (cmds : List Cmd) (reply pause : Bool) (cmd : Cmd) (answer : Option Answer) (o : List Msg)
      (fuel : ℕ) (s : Session W Client) (cs : List Cmd) (o' : List Msg)
      → length cmds ≤ fuel
      → s.wire ≡ wire_to reply pause cmd answer cmds o
      → exchange cmds (map strip (pending reply pause cmd answer o)) ≡ some (cs, o')
      → Over cs o' (pause_loop host (wire_ops client) pc fuel true s)
  pause_loop-Over cmds reply pause cmd answer o fuel s cs o' le w x =
      let over = pause_loop-OverIf cmds reply pause cmd answer o fuel s le w in rw x at over
