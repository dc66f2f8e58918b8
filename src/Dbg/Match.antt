-- ===== src/Dbg/Match.antt =====
-- src/dbg/core.c, `buxn_dbg_hook`: how the next opcode is decoded, and which breakpoint it meets.
use buxn.Prelude.{
  ℕ, zero, suc, ◌+◌, ◌%◌, Bool, true, false, ◌||◌, ◌&&◌, ◌==◌, if◌then◌else◌, u8, u16, short, Bytes,
}
use buxn.Vm.State.{Vm, dev_load2}
use buxn.Vm.Reset.{has_flag}
use buxn.Vm.Cpu.{pc_rel}
use buxn.Dbg.State.{Brkp, brkp_dev, brkp_exec, brkp_load, brkp_store, brkp_none, Dbg}

-- `buxn_dbg_opcode_class_t`
pub data OpcodeClass : Type 0 where
  other mem_load mem_store dev_load dev_store : OpcodeClass

abbrev pub is_class : OpcodeClass → OpcodeClass → Bool
is_class mem_load mem_load = true
is_class mem_store mem_store = true
is_class dev_load dev_load = true
is_class dev_store dev_store = true
is_class other other = true
is_class _ _ = false

-- The class of an opcode and the addresses that it targets.
pub record Target : Type 0 where
  pub opcode_class : OpcodeClass
  pub addr1 : ℕ
  pub addr2 : ℕ

abbrev pub no_target : Target
no_target = record { opcode_class = other; addr1 = 0; addr2 = 0 }

-- The class by `opcode & 0x1f`, and the first address from the two topmost bytes of the stack.
unfoldable pub target_of : ℕ → ℕ → ℕ → ℕ → OpcodeClass × ℕ
unfolding pc_rel
target_of base pc top below =
    if base == 0x16
    then (dev_load, top)
    else if base == 0x17
    then (dev_store, top)
    else if base == 0x10
    then (mem_load, top)
    else if base == 0x11
    then (mem_store, top)
    else if base == 0x12
    then (mem_load, pc_rel (pc + 1) top)
    else if base == 0x13
    then (mem_store, pc_rel (pc + 1) top)
    else if base == 0x14
    then (mem_load, short below top)
    else if base == 0x15
    then (mem_store, short below top)
    else (other, 0)

abbrev pub targets : Target → ℕ → Bool
targets t addr = t.addr1 == addr || t.addr2 == addr

module _ {W : Type 0} where
  -- The decoding of the opcode at the program counter.
  unfoldable pub decode : Vm W → ℕ → Target
  unfolding has_flag target_of
  decode vm pc =
      let opcode = vm.memory pc in
      let return_stack = has_flag opcode 0x40 in
      let bytes : Bytes = if return_stack then vm.rs else vm.ws in
      let sp = if return_stack then vm.rsp else vm.wsp in
      let (opcode_class, addr) =
        target_of (opcode % 32) pc (bytes (u8 (sp + 255))) (bytes (u8 (sp + 254))) in
      record {
        opcode_class = opcode_class;
        addr1 = addr;
        addr2 = u16 (addr + (if has_flag opcode 0x20 then 1 else 0));
      }

  -- Whether a breakpoint is met, by an execution that has just started or not.
  unfoldable pub meets : Vm W → ℕ → Bool → Target → Brkp → Bool
  unfolding has_flag dev_load2
  meets vm pc just_started t brkp =
      if brkp.mask == 0
      then false
      else if has_flag brkp.mask brkp_dev
      then ((has_flag brkp.mask brkp_exec && (just_started && dev_load2 vm (u8 brkp.addr) == pc))
          || ((has_flag brkp.mask brkp_load
                && (is_class t.opcode_class dev_load && targets t brkp.addr))
              || (has_flag brkp.mask brkp_store
                  && (is_class t.opcode_class dev_store && targets t brkp.addr))))
      else ((has_flag brkp.mask brkp_exec && brkp.addr == pc)
          || ((has_flag brkp.mask brkp_load
                && (is_class t.opcode_class mem_load && targets t brkp.addr))
              || (has_flag brkp.mask brkp_store
                  && (is_class t.opcode_class mem_store && targets t brkp.addr))))

  -- The loop over the breakpoints from `i` on, `left` of them: the first that is met.
  unfoldable pub find_brkp : Vm W → ℕ → Bool → Target → (ℕ → Brkp) → ℕ → ℕ → ℕ
  unfolding meets
  find_brkp vm pc just_started t brkps zero i = brkp_none
  find_brkp vm pc just_started t brkps (suc left) i =
      let rest = find_brkp vm pc just_started t brkps left (i + 1) in
      if meets vm pc just_started t (brkps i) then i else rest

  -- The opcode is decoded only if some breakpoint watches loads or stores.
  unfoldable pub match_brkp : Dbg → Vm W → ℕ → Bool → ℕ
  unfolding has_flag decode find_brkp
  match_brkp dbg vm pc just_started =
      if dbg.brkp_mask == 0
      then brkp_none
      else let watches = has_flag dbg.brkp_mask brkp_load || has_flag dbg.brkp_mask brkp_store in
        find_brkp vm pc just_started (if watches then decode vm pc else no_target) dbg.brkps
          dbg.nbrkps 0
