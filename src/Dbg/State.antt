-- ===== src/Dbg/State.antt =====
-- include/buxn/dbg/core.h, src/dbg/core.c: the commands, the debugger's state, and its table of
-- breakpoints.
use buxn.Prelude.{
  ℕ, zero, suc, ◌+◌, Bool, true, false, not, ◌||◌, List, ◌==◌, leb, if◌then◌else◌, Bytes, bit_or,
}

-- `buxn_dbg_brkp_t`
pub record Brkp : Type 0 where
  pub addr : ℕ
  pub mask : ℕ

abbrev pub brkp_dev : ℕ
brkp_dev = 1

abbrev pub brkp_pause : ℕ
brkp_pause = 2

abbrev pub brkp_exec : ℕ
brkp_exec = 4

abbrev pub brkp_load : ℕ
brkp_load = 8

abbrev pub brkp_store : ℕ
brkp_store = 16

abbrev pub brkp_none : ℕ
brkp_none = 0xff

-- `buxn_dbg_info_type_t`
pub data InfoType : Type 0 where
  pc wst rst nbrkps : InfoType

-- `buxn_dbg_cmd_t`. The values that a write carries are listed; what a query points to is an `Answer`.
pub data Cmd : Type 0 where
  info : InfoType → Cmd
  resume step_over step_in step_out : Cmd
  brkp_get : ℕ → Cmd
  brkp_set : ℕ → Brkp → Cmd
  dev_read : ℕ → ℕ → Cmd
  dev_write : ℕ → List ℕ → Cmd
  mem_read : ℕ → ℕ → Cmd
  mem_write : ℕ → List ℕ → Cmd

-- What the core writes through the pointers of a command.
pub data Answer : Type 0 where
  pc_is : ℕ → Answer
  stack_is : ℕ → Bytes → Answer
  nbrkps_is : ℕ → Answer
  brkp_is : Brkp → Answer
  values_are : List ℕ → Answer

-- `buxn_dbg_standing_cmd_type_t`
pub data StandingCmd : Type 0 where
  execute pause over out : StandingCmd

-- `buxn_dbg_s`; the wire is passed beside it.
pub record Dbg : Type 0 where
  pub executing : Bool
  pub standing_cmd : StandingCmd
  pub standing_rsp : ℕ
  pub nbrkps : ℕ
  pub brkp_mask : ℕ
  pub brkps : ℕ → Brkp

-- `buxn_dbg_init`: all else is zero.
unfoldable pub init : Dbg
init = record {
  executing = false;
  standing_cmd = execute;
  standing_rsp = 0;
  nbrkps = 0;
  brkp_mask = 0;
  brkps = λ _. record { addr = 0; mask = 0 };
}

-- `buxn_dbg_request_pause`
unfoldable pub request_pause : Dbg → Dbg
request_pause dbg = record dbg { standing_cmd = pause }

abbrev executes : StandingCmd → Bool
executes execute = true
executes _ = false

-- `buxn_dbg_should_hook`
unfoldable pub should_hook : Dbg → Bool
should_hook dbg = not (executes dbg.standing_cmd) || not (dbg.nbrkps == 0)

-- The loop from `nbrkps - 1` down: one more than the last index whose mask is not zero.
unfoldable pub last_used : ℕ → (ℕ → Brkp) → ℕ
last_used zero brkps = 0
last_used (suc i) brkps =
    let rest = last_used i brkps in if (brkps i).mask == 0 then rest else suc i

-- `brkp_mask |= brkps[i].mask` for the first `n` breakpoints.
unfoldable pub or_masks : ℕ → (ℕ → Brkp) → ℕ
or_masks zero brkps = 0
or_masks (suc n) brkps = bit_or (or_masks n brkps) (brkps n).mask

-- `brkps[id] = brkp`
unfoldable pub put_brkp : (ℕ → Brkp) → ℕ → Brkp → ℕ → Brkp
put_brkp brkps id brkp i = if i == id then brkp else brkps i

-- `BUXN_DBG_CMD_BRKP_SET`
unfoldable pub set_brkp : ℕ → Brkp → Dbg → Dbg
unfolding last_used or_masks put_brkp
set_brkp id brkp dbg =
    if id == brkp_none
    then dbg
    else let brkps = put_brkp dbg.brkps id brkp in
      let nbrkps =
        if brkp.mask == 0
        then last_used dbg.nbrkps brkps
        else if leb dbg.nbrkps id
        then id + 1
        else dbg.nbrkps in
      record dbg { brkps = brkps; nbrkps = nbrkps; brkp_mask = or_masks nbrkps brkps }
