-- ===== src/Dbg/Hook.antt =====
-- src/dbg/core.c, `buxn_dbg_hook`: the commands of a pause, and the hook of the interpreter.
use buxn.Prelude.{
  ◌&&◌, ℕ, zero, suc, ◌+◌, Bool, true, false, not, ◌||◌, ◌==◌, ltb, if◌then◌else◌, u8, u16, Option,
  none, some, List, [], ◌∷◌, Bytes, update,
}
use buxn.Vm.State.{Vm, Host}
use buxn.Vm.Reset.{has_flag}
use buxn.Dbg.State.{InfoType, Cmd, Answer, StandingCmd, Dbg, brkp_none, brkp_pause, set_brkp}
use buxn.Dbg.Match.{match_brkp}

-- What the core needs of the wire (core.h, "must be provided by the host program"). `answer` writes
-- through the pointers of the last command.
pub record WireOps (S : Type 0) : Type 0 where
  pub begin_exec : S → ℕ → S
  pub begin_break : S → ℕ → S
  pub next_command : S → S × Cmd
  pub answer : S → Answer → S
  pub end_break : S → S
  pub end_exec : S → S

pub record Session (W S : Type 0) : Type 0 where
  pub vm : Vm W
  pub dbg : Dbg
  pub wire : S

-- `values[i] = memory[(uint16_t)(addr + i)]`
unfoldable pub read_memory : ℕ → ℕ → ℕ → Bytes → List ℕ
read_memory zero i addr memory = []
read_memory (suc left) i addr memory =
    memory (u16 (addr + i)) ∷ read_memory left (i + 1) addr memory

-- `memory[(uint16_t)(addr + i)] = values[i]`
unfoldable pub write_memory : List ℕ → ℕ → ℕ → Bytes → Bytes
write_memory [] i addr memory = memory
write_memory (v ∷ values) i addr memory =
    write_memory values (i + 1) addr (update memory (u16 (addr + i)) v)

-- `values[i] = buxn_vm_dei(vm, (uint8_t)(addr + i))`
unfoldable pub read_devices : {W : Type 0} → Host W → ℕ → ℕ → ℕ → Vm W → Vm W × List ℕ
read_devices host zero i addr vm = (vm, [])
read_devices host (suc left) i addr vm =
    let (vm₁, v) = host.dei vm (u8 (addr + i)) in
    let (vm₂, vs) = read_devices host left (i + 1) addr vm₁ in (vm₂, u8 v ∷ vs)

unfoldable pub write_devices : {W : Type 0} → Host W → List ℕ → ℕ → ℕ → Vm W → Vm W
write_devices host [] i addr vm = vm
write_devices host (v ∷ values) i addr vm =
    let a = u8 (addr + i) in
    write_devices host values (i + 1) addr
      (host.deo (record vm { device = update vm.device a v }) a)

-- Whether the standing command asks for a pause.
unfoldable pub standing_pause : Dbg → ℕ → Bool
standing_pause dbg rsp = elim dbg.standing_cmd [
  | StandingCmd.execute ↦ false
  | StandingCmd.pause ↦ true
  | StandingCmd.out ↦ ltb rsp dbg.standing_rsp
  | StandingCmd.over ↦ rsp == dbg.standing_rsp
]

module _ {W S : Type 0} (host : Host W) (ops : WireOps S) (pc : ℕ) where
  abbrev answer : Session W S → Answer → Session W S
  answer s a = record s { wire = ops.answer s.wire a }

  abbrev standing : Session W S → StandingCmd → ℕ → Session W S
  standing s cmd rsp = record s { dbg = record (s.dbg) { standing_cmd = cmd; standing_rsp = rsp } }

  unfoldable pub run_info : InfoType → Session W S → Session W S
  run_info InfoType.pc s = answer s (Answer.pc_is pc)
  run_info InfoType.wst s = answer s (Answer.stack_is s.vm.wsp s.vm.ws)
  run_info InfoType.rst s = answer s (Answer.stack_is s.vm.rsp s.vm.rs)
  run_info InfoType.nbrkps s = answer s (Answer.nbrkps_is s.dbg.nbrkps)

  -- One command: whether the pause goes on, and the session after it.
  unfoldable pub run_cmd : Cmd → Session W S → Bool × Session W S
  unfolding run_info set_brkp read_memory write_memory read_devices write_devices
  run_cmd (Cmd.info type) s = (true, run_info type s)
  run_cmd Cmd.resume s = (false, standing s StandingCmd.execute s.dbg.standing_rsp)
  run_cmd Cmd.step_in s = (false, standing s StandingCmd.pause s.dbg.standing_rsp)
  run_cmd Cmd.step_over s = (false, standing s StandingCmd.over s.vm.rsp)
  run_cmd Cmd.step_out s = (
    false,
    if ltb 0 s.vm.rsp
        then standing s StandingCmd.out s.vm.rsp
        else standing s StandingCmd.execute s.dbg.standing_rsp,
  )
  run_cmd (Cmd.brkp_get id) s =
      (true, if id == brkp_none then s else answer s (Answer.brkp_is (s.dbg.brkps id)))
  run_cmd (Cmd.brkp_set id brkp) s = (true, record s { dbg = set_brkp id brkp s.dbg })
  run_cmd (Cmd.dev_read addr size) s =
      let (vm', values) = read_devices host size 0 addr s.vm in
      (true, answer (record s { vm = vm' }) (Answer.values_are values))
  run_cmd (Cmd.dev_write addr values) s =
      (true, record s { vm = write_devices host values 0 addr s.vm })
  run_cmd (Cmd.mem_read addr size) s =
      (true, answer s (Answer.values_are (read_memory size 0 addr s.vm.memory)))
  run_cmd (Cmd.mem_write addr values) s =
      (true, record s { vm = record (s.vm) { memory = write_memory values 0 addr s.vm.memory } })

  -- `while (should_pause)`, for at most `fuel` commands; none is a pause that is still open.
  unfoldable pub pause_loop : ℕ → Bool → Session W S → Option (Session W S)
  unfolding run_cmd
  pause_loop fuel false s = some s
  pause_loop zero true s = none
  pause_loop (suc fuel) true s =
      let (wire', cmd) = ops.next_command s.wire in
      let (paused, s') = run_cmd cmd (record s { wire = wire' }) in pause_loop fuel paused s'

  -- The start of an execution is told to the wire once.
  unfoldable pub start_exec : Session W S → Session W S
  start_exec s =
      if s.dbg.executing
      then s
      else record s { dbg = record (s.dbg) { executing = true }; wire = ops.begin_exec s.wire pc }

  -- The break at a breakpoint or for a pause.
  unfoldable pub run_break : ℕ → ℕ → Bool → Session W S → Option (Session W S)
  unfolding pause_loop
  run_break fuel brkp_id should_pause s =
      if should_pause || not (brkp_id == brkp_none)
      then elim (pause_loop fuel should_pause
          (record s { wire = ops.begin_break s.wire brkp_id })) [
            | none ↦ none
            | some s' ↦ some (record s' { wire = ops.end_break s'.wire })
          ]
      else some s

  -- At `BRK` the execution is over.
  unfoldable pub finish_exec : Session W S → Session W S
  finish_exec s =
      if s.vm.memory pc == 0
      then record s { dbg = record (s.dbg) { executing = false }; wire = ops.end_exec s.wire }
      else s

  -- The breakpoint that is met, and whether the program is to pause.
  unfoldable pub break_reason : Bool → Session W S → ℕ × Bool
  unfolding match_brkp has_flag standing_pause
  break_reason just_started s =
      let brkp_id = match_brkp s.dbg s.vm pc just_started in
      let at_brkp = not (brkp_id == brkp_none) && has_flag (s.dbg.brkps brkp_id).mask brkp_pause in
      (brkp_id, at_brkp || standing_pause s.dbg s.vm.rsp)

  -- `buxn_dbg_hook`
  unfoldable pub hook : ℕ → Session W S → Option (Session W S)
  unfolding start_exec break_reason run_break finish_exec
  hook fuel s =
      let s₁ = start_exec s in
      let (brkp_id, should_pause) = break_reason (not s.dbg.executing) s₁ in
      elim (run_break fuel brkp_id should_pause s₁) [
        | none ↦ none
        | some s₂ ↦ some (finish_exec s₂)
      ]
