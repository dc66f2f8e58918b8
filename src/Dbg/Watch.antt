-- ===== src/Dbg/Watch.antt =====
-- src/dbg/core.c, src/vm/exec.h: a store to a watched byte of memory is reported.
use buxn.Prelude.{ap, ◌<◌, inl, inr, ◌≢◌, arith, lo_byte, true, Bool, false, ◌≡◌, ℕ, refl}
use buxn.Vm.Opcode.{Base, Op, poly, stz, str, sta, dei, deo, lit}
use buxn.Dbg.State.{Dbg, Brkp, brkp_dev, brkp_store, brkp_none}
use buxn.Dbg.Frame.{KeepsMemory-impl_op}
use buxn.Vm.State.{Vm, Host}
use buxn.Vm.Cpu.{begin_keep, uop_pop, uop_store, Cpu}
use buxn.Dbg.Targets.{
  pop_byte, decode-stz, sta-Same, str-Same, top, stz-Same, Same, watched, wraps, calls_host, IsAt,
}
use buxn.Dbg.Match.{Target, match_brkp, meets, decode}
use buxn.Vm.Exec.{impl_op}
use buxn.Dbg.Table.{TableIsValid}
use buxn.Dbg.Shortcut.{match_brkp-IsFirst, MasksFit}
use buxn.Vm.Reset.{has_flag}

module _ {W : Type 0} (host : Host W) (c : Cpu W) (pc a : ℕ) where
  -- Any opcode but DEI and DEO leaves every byte of memory that it is not decoded to store to, apart
  -- from the last byte of a store of a short that wraps around at the end of the zero page.
  impl_op-Same :
      (op : Op)
      → IsAt op pc c
      → calls_host op ≡ false
      → wraps op (decode c.vm pc) ≡ false
      → watched (decode c.vm pc) a ≡ false
      → Same host c pc a op
  impl_op-Same (poly stz k r s) h o w n = stz-Same host c pc a k r s h w n
  impl_op-Same (poly str k r s) h o w n = str-Same host c pc a k r s h n
  impl_op-Same (poly sta k r s) h o w n = sta-Same host c pc a k r s h n
  impl_op-Same (poly dei k r s) h o w n = absurd (ground arith)
  impl_op-Same (poly deo k r s) h o w n = absurd (ground arith)
  impl_op-Same (poly Base.inc k r s) h o w n =
      ap (λ m. m a) (KeepsMemory-impl_op host (poly Base.inc k r s) refl c)
  impl_op-Same (poly b k r s) h o w n =
      ap (λ m. m a) (KeepsMemory-impl_op host (poly b k r s) refl c)
  impl_op-Same (lit r s) h o w n = ap (λ m. m a) (KeepsMemory-impl_op host (lit r s) refl c)
  impl_op-Same op h o w n = ap (λ m. m a) (KeepsMemory-impl_op host op refl c)

  meets_store :
      (vm : Vm W) (just_started : Bool) (t : Target) (brkp : Brkp)
      → brkp.addr ≡ a
      → has_flag brkp.mask brkp_store ≡ true
      → has_flag brkp.mask brkp_dev ≡ false
      → meets vm pc just_started t brkp ≡ false
      → watched t a ≡ false
  unfolding meets has_flag
  meets_store vm just_started t brkp e st dv m = ground arith

  -- If an opcode other than DEI and DEO changes a byte of memory that an enabled store breakpoint
  -- of a valid table of byte masks watches, a breakpoint is reported before it runs, with a valid
  -- machine whose stack pointers are saved. A short that is stored across the end of the zero page
  -- is the exception.
  pub store-reported :
      (dbg : Dbg) (just_started : Bool) (op : Op) (i : ℕ)
      → TableIsValid dbg
      → MasksFit dbg.brkps
      → i < dbg.nbrkps
      → (dbg.brkps i).addr ≡ a
      → has_flag (dbg.brkps i).mask brkp_store ≡ true
      → has_flag (dbg.brkps i).mask brkp_dev ≡ false
      → IsAt op pc c
      → calls_host op ≡ false
      → wraps op (decode c.vm pc) ≡ false
      → (impl_op host op c).1.vm.memory a ≢ c.vm.memory a
      → match_brkp dbg c.vm pc just_started ≢ brkp_none
  store-reported dbg just_started op i tv fit lt e st dv at o w changed missed =
      elim (match_brkp-IsFirst c.vm pc just_started dbg tv fit) [
        | inl (_, others) ↦ changed (
            impl_op-Same op at o w
              (meets_store c.vm just_started _ (dbg.brkps i) e st dv (others i (omega arith) lt)))
        | inr (_, found, _, _) ↦ (let b = tv.bound in absurd (omega arith))
      ]

module _ {W : Type 0} (host : Host W) (c : Cpu W) (pc : ℕ) where
  -- A store of a short at the last byte of the zero page changes byte 0 and is not decoded to.
  pub stz2-missed :
      (k r : Bool)
      → IsAt (poly stz k r true) pc c
      → top c r 255 ≡ 255
      → (watched (decode c.vm pc) 0 ≡ false)
        × ((impl_op host (poly stz k r true) c).1.vm.memory 0
            ≡ lo_byte (uop_pop k r true (uop_pop k r false (begin_keep k r c)).1).0)
  unfolding impl_op uop_store
  stz2-missed k r h e =
      let d = decode-stz c pc k r true h in
      (rw (d, e) refl, rw (pop_byte c k r h.wsp h.rsp, e) (ground arith))
