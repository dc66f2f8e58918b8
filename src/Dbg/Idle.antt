-- ===== src/Dbg/Idle.antt =====
-- include/buxn/dbg/core.h, `buxn_dbg_exec`: when the hook may be left out.
use buxn.Prelude.{
  if◌then◌else◌, ◌==◌, inr, inl, not, Bool-cases, ap, ◌∙◌, Bool, ℕ, refl, arith, some, false, true,
  ◌≡◌,
}
use buxn.Dbg.State.{Dbg, should_hook, or_masks, brkp_none}
use buxn.Dbg.Match.{match_brkp}
use buxn.Dbg.Table.{TableIsValid}
use buxn.Dbg.Hook.{
  WireOps, Session, hook, start_exec, finish_exec, standing_pause, break_reason, run_break,
}
use buxn.Vm.State.{Host, Vm}
use buxn.Vm.Reset.{has_flag}

-- Neither a command stands nor is there a breakpoint.
record Idle (W : Type 0) (dbg : Dbg) : Type 0 where
  pauses : (rsp : ℕ) → standing_pause dbg rsp ≡ false
  matches :
      (vm : Vm W) (pc : ℕ) (just_started : Bool) → match_brkp dbg vm pc just_started ≡ brkp_none

should_hook-Idle :
    {W : Type 0} (dbg : Dbg) → TableIsValid dbg → should_hook dbg ≡ false → Idle W dbg
unfolding should_hook match_brkp or_masks standing_pause
should_hook-Idle dbg valid h =
    let n : dbg.nbrkps ≡ 0 = ground arith in
    let m : dbg.brkp_mask ≡ 0 = valid.summary ∙ ap (λ n. or_masks n dbg.brkps) n in
    record { pauses = λ rsp. ground arith; matches = λ vm pc just_started. rw m refl }

Idle-executing : {W : Type 0} (dbg : Dbg) → Idle W dbg → Idle W (record dbg { executing = true })
unfolding standing_pause match_brkp
Idle-executing dbg i = record { pauses = i.pauses; matches = i.matches }

module _ {W S : Type 0} (host : Host W) (ops : WireOps S) (pc : ℕ) where
  start_exec-Idle : (s : Session W S) → Idle W s.dbg → Idle W (start_exec host ops pc s).dbg
  unfolding start_exec
  start_exec-Idle s i = elim (Bool-cases s.dbg.executing) [
    | inl e ↦ rw (start_exec, e) (Idle-executing s.dbg i)
    | inr e ↦ rw (start_exec, e) (Idle-executing s.dbg i)
  ]

  hook-Idle :
      (fuel : ℕ) (s : Session W S)
      → TableIsValid s.dbg
      → should_hook s.dbg ≡ false
      → hook host ops pc fuel s ≡ some (finish_exec host ops pc (start_exec host ops pc s))
  unfolding hook break_reason run_break has_flag
  hook-Idle fuel s valid h =
      let s₁ = start_exec host ops pc s in
      let i = start_exec-Idle s (should_hook-Idle s.dbg valid h) in
      let m = i.matches s₁.vm pc (not s.dbg.executing) in
      rw (hook, break_reason, run_break, m, i.pauses s₁.vm.rsp) refl

  finish_exec-vm :
      (s : Session W S) → (finish_exec host ops pc (start_exec host ops pc s)).vm ≡ s.vm
  unfolding finish_exec start_exec
  finish_exec-vm s = ground arith

  finish_exec-should_hook :
      (s : Session W S)
      → should_hook (finish_exec host ops pc (start_exec host ops pc s)).dbg ≡ should_hook s.dbg
  unfolding finish_exec start_exec should_hook
  finish_exec-should_hook s = ground arith

  -- What the wire is told by a call that meets no breakpoint: the start of an execution, unless one
  -- is under way, and its end if the instruction is `BRK`.
  abbrev pub told : Session W S → S
  told s =
      let started = if s.dbg.executing then s.wire else ops.begin_exec s.wire pc in
      if s.vm.memory pc == 0 then ops.end_exec started else started

  finish_exec-wire :
      (s : Session W S) → (finish_exec host ops pc (start_exec host ops pc s)).wire ≡ told s
  unfolding finish_exec start_exec
  finish_exec-wire s = ground arith

  finish_exec-dbg :
      (s : Session W S)
      → (finish_exec host ops pc (start_exec host ops pc s)).dbg
        ≡ record (s.dbg) { executing = not (s.vm.memory pc == 0) }
  unfolding finish_exec start_exec
  finish_exec-dbg s = elim (Bool-cases s.dbg.executing) [
    | inl e ↦ elim (Bool-cases (s.vm.memory pc == 0)) [
      | inl z ↦ rw (e, z) refl
      | inr z ↦ rw (e, z) refl
    ]
    | inr e ↦ elim (Bool-cases (s.vm.memory pc == 0)) [
      | inl z ↦ rw (e, z) refl
      | inr z ↦ rw (e, z) refl
    ]
  ]

  -- With a valid table, when `buxn_dbg_should_hook` says that the hook is not needed, a call of it
  -- returns, leaves the machine as it is and sends the wire the start of the execution, unless one is
  -- under way, its end if the instruction at `pc` is `BRK`, and nothing else. Of the debugger's state
  -- only the mark of an execution changes: it is set unless the instruction is `BRK`. The hook is not
  -- needed after the call either.
  pub hook_unneeded :
      (fuel : ℕ) (s : Session W S)
      → TableIsValid s.dbg
      → should_hook s.dbg ≡ false
      → (s' : Session W S) × (hook host ops pc fuel s ≡ some s')
        × (s'.vm ≡ s.vm)
        × (s'.wire ≡ told s)
        × (s'.dbg ≡ record (s.dbg) { executing = not (s.vm.memory pc == 0) })
        × (should_hook s'.dbg ≡ false)
  hook_unneeded fuel s valid h = (
    finish_exec host ops pc (start_exec host ops pc s),
    hook-Idle fuel s valid h,
    finish_exec-vm s,
    finish_exec-wire s,
    finish_exec-dbg s,
    finish_exec-should_hook s ∙ h,
  )
