-- ===== src/Asm/Evolve/Emit.antt =====
-- src/asm/asm.c: emission, labels and references change the program behind the zero page only.
use buxn.Asm.Evolve.Sound.{
  Sound, Sound-modify, Sound-bind, Sound-pure, Sound-gets, Sound-if, Sound-attempt, Sound-error_ex,
  sound_rules,
}
use buxn.Prelude.{
  AllBytes-update, ℕ, ◌≤◌, refl, sym, Bool, Option, none, some, arith, ltb, Bool-cases, inl, inr,
  u8, update,
}
use buxn.Asm.Text.{is_runic}
use buxn.Prelude.Int.{ℤ}
use buxn.Asm.State.{
  Token, LabelRefType, ref_zero, ref_abs, ref_rel, LabelRefSize, ref_byte, ref_short, Sym, Act,
  modify,
}
use buxn.Asm.Report.{put_symbol2}
use buxn.Asm.Emit.{
  LabelInfo, set_write_addr, calculate_addr, emit2, put_rom, put_opt, emit_backward_ref,
  emit_opcode, emit, emit_byte, emit_short, emit_addr,
}

pub Sound-set_write_addr : (addr : ℕ) → Sound (set_write_addr addr)
unfolding set_write_addr
Sound-set_write_addr addr = Sound-modify _ λ a. (refl, refl, refl, refl)

Sound-store :
    (addr byte : ℕ)
    → 256 ≤ addr
    → Sound (modify λ a. record a { rom = update a.rom addr (u8 byte) })
unfolding modify
Sound-store addr byte h = record {
  good = record {
    evolves = λ a. record {
      zero_page = λ i lt. ground arith;
      bytes = λ all. AllBytes-update a.rom addr (u8 byte) all (omega arith);
      honest = λ e. e;
      sticky = λ e. e;
      depth = refl;
    };
  };
  loud = λ a e. absurd (ground (arith, e));
}

Sound-put_rom : (token : Token) (addr byte : ℕ) → Sound (put_rom token addr byte)
unfolding put_rom
Sound-put_rom token addr byte = elim (Bool-cases (ltb addr 256)) [
  | inl e ↦ rw e (Sound-error_ex _ _ _)
  | inr e ↦ rw e (Sound-store addr byte (ground arith))
]

pub Sound-emit : (token : Token) (byte : ℕ) → Sound (emit token byte)
unfolding emit
Sound-emit token byte = search (sound_rules, Sound-set_write_addr, Sound-put_rom) depth 8

pub ruleset byte_rules = (sound_rules, Sound-set_write_addr, Sound-emit)

pub Sound-emit2 : (token : Token) (short : ℕ) → Sound (emit2 token short)
unfolding emit2
Sound-emit2 token short = search byte_rules depth 8

pub Sound-emit_opcode :
    (token : Token) (opcode : ℕ) (is_runic : Bool) → Sound (emit_opcode token opcode is_runic)
unfolding emit_opcode
Sound-emit_opcode token opcode is_runic = search byte_rules depth 8

pub Sound-emit_byte :
    (token : Token) (byte : ℕ) (is_runic : Bool) → Sound (emit_byte token byte is_runic)
unfolding emit_byte
Sound-emit_byte token byte is_runic = search byte_rules depth 8

pub Sound-emit_short :
    (token : Token) (short : ℕ) (is_runic : Bool) → Sound (emit_short token short is_runic)
unfolding emit_short
Sound-emit_short token short is_runic = search (byte_rules, Sound-emit2) depth 8

pub Sound-calculate_addr :
    (token : Token) (type : LabelRefType) (from to : ℕ) → Sound (calculate_addr token type from to)
unfolding calculate_addr
Sound-calculate_addr token ref_zero from to = search byte_rules depth 8
Sound-calculate_addr token ref_abs from to = search byte_rules
Sound-calculate_addr token ref_rel from to = search byte_rules

Sound-put_opt :
    (put : ℕ → Sym → Act (Unit {0})) (addr : ℕ) (sym : Option Sym)
    → ((n : ℕ) (s : Sym) → Sound (put n s))
    → Sound (put_opt put addr sym)
Sound-put_opt put addr none h = search sound_rules
Sound-put_opt put addr (some s) h = h addr s

Sound-put_symbol2 : (addr : ℕ) (sym : Sym) → Sound (put_symbol2 addr sym)
Sound-put_symbol2 addr sym = search sound_rules depth 8

pub ruleset addr_rules = (
  byte_rules, Sound-emit2, Sound-emit_opcode, Sound-emit_byte, Sound-emit_short,
  Sound-calculate_addr,
)

pub Sound-emit_addr :
    (token : Token) (type : LabelRefType) (size : LabelRefSize) (addr : ℤ) (at : Token)
    (sym : Option Sym)
    → Sound (emit_addr token type size addr at sym)
unfolding emit_addr
Sound-emit_addr token type ref_byte addr at sym = search (addr_rules, Sound-put_opt) depth 12
Sound-emit_addr token type ref_short addr at sym =
    search (addr_rules, Sound-put_opt, Sound-put_symbol2) depth 12

pub Sound-emit_backward_ref :
    (token : Token) (type : LabelRefType) (size : LabelRefSize) (l : LabelInfo)
    (with_symbol is_runic : Bool)
    → Sound (emit_backward_ref token type size l with_symbol is_runic)
unfolding emit_backward_ref
Sound-emit_backward_ref token type size l with_symbol is_runic =
    search (addr_rules, Sound-emit_addr) depth 8

pub ruleset emit_rules = (addr_rules, Sound-emit_addr, Sound-emit_backward_ref)
