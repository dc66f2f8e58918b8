-- ===== src/Asm/Emit.antt =====
-- src/asm/asm.c: the bytes of the program, and the addresses in it.
use buxn.Prelude.{
  ℕ, ◌+◌, ◌-◌, ◌/◌, ◌%◌, sym, Bool, true, false, ◌&&◌, Option, none, some, ltb, leb, if◌then◌else◌,
  u8, u16, update,
}
use buxn.Asm.Text.{Text, is_runic}
use buxn.Prelude.Int.{ℤ, pos, negsuc}
use buxn.Asm.State.{
  Region, Token, LabelRefType, ref_zero, ref_abs, ref_rel, LabelRefSize, ref_byte, ref_short,
  SymType, sym_label_ref, sym_opcode, sym_number, Sym, Act, ◌>>=◌, ◌>>◌, pure, gets, modify, when,
}
use buxn.Asm.Report.{error, error2, warning, put_symbol, put_symbol2}
use buxn.Prelude.Int.{negsuc, pos}

-- `BUXN_ASM_RESET_VECTOR`
abbrev pub asm_reset_vector : ℕ
asm_reset_vector = 0x0100

unfoldable pub set_write_addr : ℕ → Act (Unit {0})
set_write_addr addr = modify λ a. record a { write_addr = addr }

abbrev pub write_addr : Act ℕ
write_addr = gets λ a. a.write_addr

-- The write behind the test; `put_rom` stores one byte.
unfoldable pub put_rom : Token → ℕ → ℕ → Act (Unit {0})
put_rom token addr byte =
    if ltb addr asm_reset_vector
    then error token "Writing to zero page"
    else modify λ a. record a { rom = update a.rom addr (u8 byte) }

unfoldable pub emit : Token → ℕ → Act (Unit {0})
unfolding put_rom set_write_addr
emit token byte = do addr ← write_addr; set_write_addr (u16 (addr + 1)); put_rom token addr byte

unfoldable pub emit2 : Token → ℕ → Act (Unit {0})
unfolding emit
emit2 token short = emit token (short / 256) >> emit token (short % 256)

abbrev start_to_next : Region → Region
start_to_next r = record r {
  stop = record (r.start) { col = r.start.col + 1; byte = r.start.byte + 1 };
}

abbrev behind_start : Region → Region
behind_start r = record r {
  start = record (r.start) { col = r.start.col + 1; byte = r.start.byte + 1 };
}

-- The rune alone, and what is behind it.
abbrev rune_region : Bool → Region → Region
rune_region is_runic r = if is_runic then start_to_next r else r

abbrev pub operand_region : Bool → Region → Region
operand_region is_runic r = if is_runic then behind_start r else r

abbrev pub plain_sym : SymType → ℕ → Region → Sym
plain_sym type id region = record {
  type = type;
  name_is_generated = false;
  id = u16 id;
  name = none;
  region = region;
}

unfoldable pub emit_opcode : Token → ℕ → Bool → Act (Unit {0})
unfolding emit
emit_opcode token opcode is_runic = do
  addr ← write_addr
  emit token opcode
  put_symbol addr (plain_sym sym_opcode opcode (rune_region is_runic token.region))

unfoldable pub emit_byte : Token → ℕ → Bool → Act (Unit {0})
unfolding emit
emit_byte token byte is_runic = do
  addr ← write_addr
  emit token byte
  put_symbol addr (plain_sym sym_number byte (operand_region is_runic token.region))

unfoldable pub emit_short : Token → ℕ → Bool → Act (Unit {0})
unfolding emit2
emit_short token short is_runic = do
  addr ← write_addr
  emit2 token short
  put_symbol2 addr (plain_sym sym_number short (operand_region is_runic token.region))

-- `m - n` on int32_t.
unfoldable pub difference : ℕ → ℕ → ℤ
difference m n = if leb n m then pos (m - n) else negsuc (n - m - 1)

unfoldable pub calculate_addr : Token → LabelRefType → ℕ → ℕ → Act ℤ
unfolding difference
calculate_addr token ref_zero from_addr to_addr = do
  when (ltb 255 to_addr) (warning token "Taking zero-address of a label past page zero")
  pure (pos (to_addr % 256))
calculate_addr token ref_abs from_addr to_addr = pure (pos to_addr)
calculate_addr token ref_rel from_addr to_addr = pure (difference to_addr (from_addr + 2))

-- `(uint16_t)` of a number.
unfoldable pub to_u16 : ℤ → ℕ
to_u16 (pos n) = u16 n
to_u16 (negsuc n) = 65535 - u16 n

-- Outside of int8_t.
unfoldable pub too_far : ℤ → Bool
too_far (pos n) = ltb 127 n
too_far (negsuc n) = ltb 127 n

abbrev pub is_rel : LabelRefType → Bool
is_rel ref_rel = true
is_rel _ = false

abbrev pub put_opt : (ℕ → Sym → Act (Unit {0})) → ℕ → Option Sym → Act (Unit {0})
put_opt put addr none = pure tt
put_opt put addr (some sym) = put addr sym

unfoldable pub emit_addr :
    Token → LabelRefType → LabelRefSize → ℤ → Token → Option Sym → Act (Unit {0})
unfolding emit emit2 too_far to_u16
emit_addr token type ref_byte addr token_at_addr sym =
    if is_rel type && too_far addr
    then error2 token "Referenced address is too far" token_at_addr "Label defined here"
    else do at ← write_addr; emit token (to_u16 addr % 256); put_opt put_symbol at sym
emit_addr token type ref_short addr token_at_addr sym = do
  at ← write_addr
  emit2 token (to_u16 addr)
  put_opt put_symbol2 at sym

-- What the reference needs of a label: its name, which an anonymous one has not, its identity, its
-- address and where it is defined.
pub record LabelInfo : Type 0 where
  pub name : Option Text
  pub id : ℕ
  pub address : ℕ
  pub defining_token : Token

unfoldable pub emit_backward_ref :
    Token → LabelRefType → LabelRefSize → LabelInfo → Bool → Bool → Act (Unit {0})
unfolding calculate_addr emit_addr
emit_backward_ref token type size l with_symbol is_runic = do
  at ← write_addr
  addr ← calculate_addr token type at l.address
  let sym : Sym = record {
    type = sym_label_ref;
    name_is_generated = false;
    id = l.id;
    name = l.name;
    region = operand_region is_runic token.region;
  }
  emit_addr token type size addr l.defining_token (if with_symbol then some sym else none)
