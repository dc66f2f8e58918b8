-- ===== src/Dbg/Pause.antt =====
-- src/dbg/core.c, src/dbg/wire.c: a pause ends when the wire does.
use buxn.Prelude.{
  ◌||◌, not, ◌==◌, false, true, Bool, ◌<◌, Option-cases, Bool-cases, ◌⊎◌, some, none, Option, ◌≡◌,
  ℕ, refl, zero, suc, arith, inl, inr,
}
use buxn.Dbg.State.{brkp_none, Cmd, InfoType}
use buxn.Dbg.Hook.{
  break_reason, run_break, start_exec, run_info, Session, run_cmd, pause_loop, hook,
}
use buxn.Dbg.Wire.{
  send, wire_begin_break, read_command, accept, send_or_close, wire_next_command, maybe_send_pause,
  maybe_reply, Protocol, Msg, Wire, wire_ops,
}
use buxn.Vm.State.{Host}

module _ {I O : Type 0} (protocol : Protocol I O) where
  -- One of the next n + 1 reads fails.
  abbrev pub Ends : ℕ → I → Type 0
  Ends zero i = (protocol.read i).1 ≡ none
  Ends (suc n) i = ((protocol.read i).1 ≡ none) ⊎ Ends n (protocol.read i).0

  -- So do those of an input that is still open.
  abbrev pub InputEnds : ℕ → Option I → Type 0
  InputEnds n none = Unit
  InputEnds n (some i) = Ends n i

  SameOrClosed : Wire I O → Wire I O → Type 0
  SameOrClosed wire wire' = (wire'.input ≡ wire.input) ⊎ (wire'.input ≡ none)

  send_or_close-input :
      (msg : Msg) (wire : Wire I O) → SameOrClosed wire (send_or_close protocol msg wire)
  unfolding send_or_close SameOrClosed
  send_or_close-input msg wire = elim (Option-cases wire.output) [
    | inl e ↦ rw e (inl refl)
    | inr (o, e) ↦ elim (Bool-cases (protocol.write o msg).1) [
      | inl ok ↦ rw (e, ok) (inl refl)
      | inr ok ↦ rw (e, ok) (inr refl)
    ]
  ]

  maybe_reply-input : (wire : Wire I O) → SameOrClosed wire (maybe_reply protocol wire)
  unfolding maybe_reply SameOrClosed
  maybe_reply-input wire =
      ground (arith, send_or_close-input (Msg.command_rep wire.cmd wire.answer) wire)

  maybe_send_pause-input : (wire : Wire I O) → SameOrClosed wire (maybe_send_pause protocol wire)
  unfolding maybe_send_pause SameOrClosed
  maybe_send_pause-input wire = ground (arith, send_or_close-input Msg.paused wire)

  InputEnds-SameOrClosed :
      (n : ℕ) (wire wire' : Wire I O)
      → SameOrClosed wire wire'
      → InputEnds n wire.input
      → InputEnds n wire'.input
  unfolding SameOrClosed
  InputEnds-SameOrClosed n wire wire' (inl e) h = rw e h
  InputEnds-SameOrClosed n wire wire' (inr e) h = rw e tt

  -- A read that fails makes a RESUME; else one read less is left.
  Continues : ℕ → Wire I O × Cmd → Type 0
  Continues n (wire', cmd) = (cmd ≡ Cmd.resume) ⊎ ((m : ℕ) × (n ≡ suc m) × InputEnds m wire'.input)

  accept-Continues :
      (n : ℕ) (i : I) (msg : Option Msg) (wire : Wire I O)
      → (msg ≡ none) ⊎ ((m : ℕ) × (n ≡ suc m) × Ends m i)
      → Continues n (accept protocol msg (record wire { input = some i }))
  unfolding accept Continues
  accept-Continues n i none wire h = inl refl
  accept-Continues n i (some (Msg.command_req cmd)) wire (inl e) = absurd (ground arith)
  accept-Continues n i (some (Msg.command_req cmd)) wire (inr h) = inr h
  accept-Continues n i (some msg) wire h = inl refl

  Ends-read :
      (n : ℕ) (i : I)
      → Ends n i
      → ((protocol.read i).1 ≡ none) ⊎ ((m : ℕ) × (n ≡ suc m) × Ends m (protocol.read i).0)
  Ends-read zero i h = inl h
  Ends-read (suc n) i (inl e) = inl e
  Ends-read (suc n) i (inr h) = inr (n, refl, h)

  read_command-Continues :
      (n : ℕ) (wire : Wire I O) → InputEnds n wire.input → Continues n (read_command protocol wire)
  unfolding read_command Continues
  read_command-Continues n wire h = elim (Option-cases wire.input) [
    | inl e ↦ rw e (inl refl)
    | inr (i, e) ↦
        (let h' : Ends n i = rw e at h in
          rw e (accept-Continues n (protocol.read i).0 (protocol.read i).1 wire (Ends-read n i h')))
  ]

  next_command-Continues :
      (n : ℕ) (wire : Wire I O)
      → InputEnds n wire.input
      → Continues n (wire_next_command protocol wire)
  unfolding wire_next_command
  next_command-Continues n wire h =
      let w = maybe_send_pause protocol wire in
      read_command-Continues n (maybe_reply protocol w) (
        InputEnds-SameOrClosed n w _ (maybe_reply-input w)
          (InputEnds-SameOrClosed n wire w (maybe_send_pause-input wire) h))

module _ {W I O : Type 0} (protocol : Protocol I O) (host : Host W) (pc : ℕ) where
  run_cmd-input :
      (cmd : Cmd) (s : Session W (Wire I O))
      → (run_cmd host (wire_ops protocol) pc cmd s).1.wire.input ≡ s.wire.input
  unfolding run_cmd run_info
  run_cmd-input (Cmd.info InfoType.pc) s = refl
  run_cmd-input (Cmd.info InfoType.wst) s = refl
  run_cmd-input (Cmd.info InfoType.rst) s = refl
  run_cmd-input (Cmd.info InfoType.nbrkps) s = refl
  run_cmd-input cmd s = ground arith

  abbrev Paused : Bool → ℕ → Session W (Wire I O) → Type 0
  Paused b fuel s =
      (s' : Session W (Wire I O)) × (pause_loop host (wire_ops protocol) pc fuel b s ≡ some s')

  pause_loop-over :
      (fuel : ℕ) (s : Session W (Wire I O)) (paused : Bool) → paused ≡ false → Paused paused fuel s
  unfolding pause_loop
  pause_loop-over fuel s true e = absurd (ground arith)
  pause_loop-over fuel s false e = (s, refl)

  pause_loop-on :
      (fuel : ℕ) (s : Session W (Wire I O)) (paused : Bool)
      → paused ≡ true
      → Paused true fuel s
      → Paused paused fuel s
  pause_loop-on fuel s paused e p = rw e p

  run_cmd-resume :
      (cmd : Cmd) (s : Session W (Wire I O))
      → cmd ≡ Cmd.resume
      → (run_cmd host (wire_ops protocol) pc cmd s).0 ≡ false
  unfolding run_cmd
  run_cmd-resume cmd s e = rw e refl

  pause_loop-ends :
      (n fuel : ℕ) (s : Session W (Wire I O))
      → n < fuel
      → InputEnds protocol n s.wire.input
      → Paused true fuel s
  unfolding pause_loop Continues
  pause_loop-ends n zero s lt h = absurd (omega arith)
  pause_loop-ends n (suc fuel) s lt h =
      let next = wire_next_command protocol s.wire in
      let s₁ : Session W (Wire I O) = record s { wire = next.0 } in
      let r = run_cmd host (wire_ops protocol) pc next.1 s₁ in
      elim (next_command-Continues protocol n s.wire h) [
        | inl e ↦ pause_loop-over fuel r.1 r.0 (run_cmd-resume next.1 s₁ e)
        | inr (m, e, h') ↦ elim (Bool-cases r.0) [
          | inl on ↦
              pause_loop-on fuel r.1 r.0 on
                (pause_loop-ends m fuel r.1 (omega arith) (rw (run_cmd-input next.1 s₁) h'))
          | inr off ↦ pause_loop-over fuel r.1 r.0 off
        ]
      ]

  start_exec-input :
      (s : Session W (Wire I O))
      → (start_exec host (wire_ops protocol) pc s).wire.input ≡ s.wire.input
  unfolding start_exec send
  start_exec-input s = ground arith

  begin_break-input :
      (wire : Wire I O) (id : ℕ) → (wire_begin_break protocol wire id).input ≡ wire.input
  unfolding wire_begin_break send
  begin_break-input wire id = ground arith

  run_break-ends :
      (n fuel id : ℕ) (b : Bool) (s : Session W (Wire I O))
      → n < fuel
      → InputEnds protocol n s.wire.input
      → (s' : Session W (Wire I O)) × (run_break host (wire_ops protocol) pc fuel id b s ≡ some s')
  unfolding run_break
  run_break-ends n fuel id b s lt h =
      let s₁ : Session W (Wire I O) = record s {
        wire = (wire_ops protocol).begin_break s.wire id;
      } in
      let h₁ : InputEnds protocol n s₁.wire.input = rw (begin_break-input s.wire id) h in
      let p : Paused b fuel s₁ = elim (Bool-cases b) [
        | inl on ↦ pause_loop-on fuel s₁ b on (pause_loop-ends n fuel s₁ lt h₁)
        | inr off ↦ pause_loop-over fuel s₁ b off
      ] in
      elim (Bool-cases (b || not (id == brkp_none))) [
        | inl e ↦ rw (e, p.1) (_, refl)
        | inr e ↦ rw e (s, refl)
      ]

  -- The hook returns, whatever the client asks for, if one of its messages fails to be read after at
  -- most n others and the fuel is more than n: a pause is not left open when the wire breaks.
  pub hook-ends :
      (n fuel : ℕ) (s : Session W (Wire I O))
      → n < fuel
      → InputEnds protocol n s.wire.input
      → (s' : Session W (Wire I O)) × (hook host (wire_ops protocol) pc fuel s ≡ some s')
  unfolding hook
  hook-ends n fuel s lt h =
      let s₁ = start_exec host (wire_ops protocol) pc s in
      let h₁ : InputEnds protocol n s₁.wire.input = rw (start_exec-input s) h in
      let r = break_reason host (wire_ops protocol) pc (not s.dbg.executing) s₁ in
      let (s', e) = run_break-ends n fuel r.0 r.1 s₁ lt h₁ in rw (hook, e) (_, refl)
