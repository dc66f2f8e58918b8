-- ===== src/Asm/Opcode.antt =====
-- src/asm/asm.c: the mnemonics, `buxn_asm_parse_opcode`.
use buxn.Prelude.{
  suc, bit_and, ltb, ◌==◌, ◌+◌, ◌||◌, ◌*◌, if◌then◌else◌, bit_or, ℕ, Bool, List, [], ◌∷◌, Option,
  none, some, false,
}
use buxn.Asm.Text.{Text}

-- `BUXN_OP_REF_CODE`
abbrev op_ref_code : ℕ → ℕ → ℕ → ℕ
op_ref_code a b c = a * 65536 + b * 256 + c

unfoldable pub base_opcode_refs : List ℕ
base_opcode_refs =
    op_ref_code b'L' b'I' b'T'
    ∷ op_ref_code b'I' b'N' b'C'
    ∷ op_ref_code b'P' b'O' b'P'
    ∷ op_ref_code b'N' b'I' b'P'
    ∷ op_ref_code b'S' b'W' b'P'
    ∷ op_ref_code b'R' b'O' b'T'
    ∷ op_ref_code b'D' b'U' b'P'
    ∷ op_ref_code b'O' b'V' b'R'
    ∷ op_ref_code b'E' b'Q' b'U'
    ∷ op_ref_code b'N' b'E' b'Q'
    ∷ op_ref_code b'G' b'T' b'H'
    ∷ op_ref_code b'L' b'T' b'H'
    ∷ op_ref_code b'J' b'M' b'P'
    ∷ op_ref_code b'J' b'C' b'N'
    ∷ op_ref_code b'J' b'S' b'R'
    ∷ op_ref_code b'S' b'T' b'H'
    ∷ op_ref_code b'L' b'D' b'Z'
    ∷ op_ref_code b'S' b'T' b'Z'
    ∷ op_ref_code b'L' b'D' b'R'
    ∷ op_ref_code b'S' b'T' b'R'
    ∷ op_ref_code b'L' b'D' b'A'
    ∷ op_ref_code b'S' b'T' b'A'
    ∷ op_ref_code b'D' b'E' b'I'
    ∷ op_ref_code b'D' b'E' b'O'
    ∷ op_ref_code b'A' b'D' b'D'
    ∷ op_ref_code b'S' b'U' b'B'
    ∷ op_ref_code b'M' b'U' b'L'
    ∷ op_ref_code b'D' b'I' b'V'
    ∷ op_ref_code b'A' b'N' b'D'
    ∷ op_ref_code b'O' b'R' b'A'
    ∷ op_ref_code b'E' b'O' b'R'
    ∷ op_ref_code b'S' b'F' b'T'
    ∷ []

unfoldable pub brk_ref : ℕ
brk_ref = op_ref_code b'B' b'R' b'K'

-- `buxn_asm_opcode_result_t`
pub record OpcodeResult : Type 0 where
  pub opcode : ℕ
  pub has_redundant_flag : Bool

-- The index of a reference in the table.
abbrev find_ref : List ℕ → ℕ → Option ℕ
find_ref [] code = none
find_ref (r ∷ rs) code =
    if r == code
    then some 0
    else elim (find_ref rs code) [ none ↦ none | some index ↦ some (suc index) ]

-- One flag: whether it was there already, and the opcode with it.
unfoldable pub add_flag : ℕ → OpcodeResult → OpcodeResult
add_flag flag r = record {
  opcode = bit_or r.opcode flag;
  has_redundant_flag = r.has_redundant_flag || ltb 0 (bit_and r.opcode flag);
}

unfoldable pub flag_of : ℕ → Option ℕ
flag_of ch =
    if ch == b'2'
    then some 0x20
    else if ch == b'r'
    then some 0x40
    else if ch == b'k'
    then some 0x80
    else none

-- The loop over the flags, which ends at a character that is none.
unfoldable pub process_flags : Text → OpcodeResult → Option OpcodeResult
unfolding add_flag flag_of
process_flags [] r = some r
process_flags (ch ∷ s) r = elim (flag_of ch) [
  | none ↦ none
  | some flag ↦ process_flags s (add_flag flag r)
]

-- LIT always has the keep flag.
unfoldable pub first_opcode : ℕ → OpcodeResult
first_opcode index = record {
  opcode = if index == 0 then 0x80 else index;
  has_redundant_flag = false;
}

-- `buxn_asm_parse_opcode`; the three-character prefix is the reference.
unfoldable pub parse_ref : ℕ → Text → Option OpcodeResult
unfolding base_opcode_refs brk_ref process_flags first_opcode
parse_ref code flags =
    if code == brk_ref
    then elim flags [ [] ↦ some record { opcode = 0; has_redundant_flag = false } | _ ∷ _ ↦ none ]
    else elim (find_ref base_opcode_refs code) [
      | none ↦ none
      | some index ↦ process_flags flags (first_opcode index)
    ]

unfoldable pub parse_opcode : Text → Option OpcodeResult
unfolding parse_ref
parse_opcode (a ∷ b ∷ c ∷ flags) = parse_ref (op_ref_code a b c) flags
parse_opcode _ = none
