-- ===== src/Asm/Jump.antt =====
-- src/asm/asm.c with src/vm/exec.h: the machine follows the references that the assembler emits.
pub mod Lambda
pub mod Patch
pub mod Define
use Prim.Native.String.{String}
use buxn.Prelude.{
  ◌≢◌, ℕ, zero, suc, ◌+◌, ◌-◌, ◌*◌, ◌/◌, ◌%◌, ◌^◌, ◌≤◌, ◌<◌, ◌≡◌, refl, sym, ap, ◌∙◌, Bool, true,
  false, not, ◌&&◌, ◌||◌, Option, none, some, List, [], ◌∷◌, ◌++◌, arith, ltb, leb, ◌==◌,
  if◌then◌else◌, Bool-cases, Option-cases, inl, inr, u8, u16, Bytes, update, length,
}
use buxn.Asm.Text.{
  Text, text_eq, is_only, is_runic, is_digit, is_hex_letter, is_uppercased, is_sep, is_number,
  skip_plus, str_pop_front,
}
use buxn.Prelude.Int.{ℤ, pos, negsuc}
use buxn.Vm.State.{Host, load2}
use buxn.Vm.Exec.{impl_op, advance}
use buxn.Vm.Opcode.{jmi, jsi, jci}
use buxn.Vm.Cpu.{uop_pop, uop_push, uop_load, pc_rel, Cpu}
use buxn.Asm.State.{
  FilePos, Region, Token, Input, char, io_eof, io_error, AsmUnit, file_unit, macro_unit,
  LabelRefType, ref_zero, ref_abs, ref_rel, LabelRefSize, ref_byte, ref_short, ForwardRef, Entry,
  unknown, macro, label, forward_ref, Symbol, SymType, sym_macro, sym_macro_ref, sym_include,
  sym_comment, sym_mark, sym_label, sym_label_ref, sym_opcode, sym_number, sym_text, Sym,
  ReportType, report_error, report_warning, Report, DeferredInclude, Asm, Outcome, done, failed,
  stuck, Act, followed, ◌>>=◌, ◌>>◌, pure, fail, starve, gets, modify, attempt, when,
}
use buxn.Asm.Report.{
  report, set_failed, error_ex, error, error2, warning, no_pos, file_region, put_symbol,
  put_symbol2,
}
use buxn.Asm.Emit.{
  LabelInfo, calculate_addr, emit_addr, emit_backward_ref, too_far, difference, set_write_addr,
  asm_reset_vector, emit, emit2, put_rom, to_u16,
}

to_u16-difference :
    (from to : ℕ)
    → from < 65536
    → to < 65536
    → u16 (from + 2 + to_u16 (difference to (from + 2))) ≡ to
unfolding to_u16 difference
to_u16-difference from to hf ht = ground arith

pub to_u16-lt : (z : ℤ) → to_u16 z < 65536
unfolding to_u16
to_u16-lt (pos n) = omega arith
to_u16-lt (negsuc n) = omega arith

-- A low byte is enough where the distance fits into a signed one.
pc_rel-difference :
    (from to : ℕ)
    → from < 65534
    → to < 65536
    → too_far (difference to (from + 2)) ≡ false
    → pc_rel (from + 2) (to_u16 (difference to (from + 2)) % 256) ≡ to
unfolding to_u16 difference too_far pc_rel
pc_rel-difference from to hf ht near = ground arith

-- Where a whole operand fits behind the zero page.
abbrev pub Room : ℕ → Type 0
Room addr = (256 ≤ addr) × (addr < 65535)

-- The state behind a short.
abbrev pub with_short : ℕ → Asm → Asm
with_short v a = record a {
  write_addr = u16 (a.write_addr + 2);
  rom = update (update a.rom a.write_addr (u8 (v / 256))) (a.write_addr + 1) (u8 (v % 256));
}

put_rom-done :
    (token : Token) (addr byte : ℕ) (a : Asm)
    → 256 ≤ addr
    → put_rom token addr byte a ≡ (done tt, record a { rom = update a.rom addr (u8 byte) })
unfolding put_rom modify
put_rom-done token addr byte a h =
    let e : ltb addr asm_reset_vector ≡ false = ground arith in rw e refl

pub emit-done :
    (token : Token) (byte : ℕ) (a : Asm)
    → 256 ≤ a.write_addr
    → emit token byte a ≡ (
      done tt,
      record a { write_addr = u16 (a.write_addr + 1); rom = update a.rom a.write_addr (u8 byte) },
    )
unfolding emit set_write_addr ◌>>=◌ gets modify
emit-done token byte a h = put_rom-done token a.write_addr byte _ h

pub emit2-done :
    (token : Token) (v : ℕ) (a : Asm)
    → Room a.write_addr
    → emit2 token v a ≡ (done tt, with_short v a)
unfolding emit2 ◌>>=◌
emit2-done token v a (lo, hi) =
    let e : u16 (a.write_addr + 1) ≡ a.write_addr + 1 = omega arith in
    ap (λ r. followed r (λ u. emit token (v % 256))) (emit-done token (v / 256) a lo)
    ∙ emit-done token (v % 256) _ (rw e (omega arith))
    ∙ ground arith

-- The short that a reference of a type stands for.
abbrev pub reference_value : LabelRefType → ℕ → ℕ → ℕ
reference_value ref_zero from to = to % 256
reference_value ref_abs from to = to
reference_value ref_rel from to = to_u16 (difference to (from + 2))

-- A short that the assembler stores is what the machine loads.
pub load2-with_short :
    (v : ℕ) (a : Asm)
    → a.write_addr < 65535
    → v < 65536
    → load2 (with_short v a).rom a.write_addr 65536 ≡ v
unfolding load2
load2-with_short v a h hv = ground arith

-- A relative short reference that has room.
emit_rel-done :
    (token : Token) (l : LabelInfo) (a : Asm)
    → Room a.write_addr
    → emit_backward_ref token ref_rel ref_short l false false a
      ≡ (done tt, with_short (reference_value ref_rel a.write_addr l.address) a)
unfolding emit_backward_ref emit_addr calculate_addr ◌>>=◌ gets pure
emit_rel-done token l a h = ap (λ r. followed r (λ u. pure tt)) (emit2-done token _ a h)

module _ {W : Type 0} (host : Host W) where
  -- The three immediate jumps with their operand at the program counter.
  abbrev pub JumpsTo : Cpu W → ℕ → Type 0
  JumpsTo c to =
      ((impl_op host jmi c).1.pc ≡ to)
      × ((impl_op host jsi c).1.pc ≡ to)
      × ((uop_pop false false false c).0 ≢ 0 → (impl_op host jci c).1.pc ≡ to)

  jumps-to :
      (c : Cpu W) (from to : ℕ)
      → c.pc ≡ from
      → from < 65536
      → to < 65536
      → load2 c.vm.memory from 65536 ≡ to_u16 (difference to (from + 2))
      → JumpsTo c to
  unfolding impl_op uop_load advance uop_push uop_pop
  jumps-to c from to pc hf ht e =
      let t = to_u16-difference from to hf ht in
      (
        rw (pc, e) (ground (arith, t)),
        rw (pc, e) (ground (arith, t, e, pc)),
        λ nz. ground (arith, t, e, pc),
      )
