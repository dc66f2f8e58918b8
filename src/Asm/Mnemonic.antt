-- ===== src/Asm/Mnemonic.antt =====
-- src/asm/asm.c: the mnemonics of the machine's opcodes, as the manual writes them.
use buxn.Prelude.{ℕ, ◌≡◌, refl, ◌∙◌, Bool, true, false, Option, none, some, [], ◌∷◌, arith}
use buxn.Asm.Text.{Text}
use buxn.Vm.Opcode.{
  dispatch, Base, inc, pop, nip, swp, rot, dup, ovr, equ, neq, gth, lth, jmp, jcn, jsr, sth, ldz,
  stz, ldr, str, lda, sta, dei, deo, add, sub, mul, div, and, ora, eor, sft, Op, brk, jci, jmi, jsi,
  lit, poly, value, base_value, opcode_value,
}
use mathlib.Core.Option.{some-injective}
use buxn.Asm.Opcode.{
  flag_of, add_flag, first_opcode, brk_ref, base_opcode_refs, parse_ref, process_flags,
  OpcodeResult, parse_opcode,
}
use buxn.Vm.Dispatch.{dispatch-value}

abbrev base_name : Base → Text → Text
base_name inc s = b'I' ∷ b'N' ∷ b'C' ∷ s
base_name pop s = b'P' ∷ b'O' ∷ b'P' ∷ s
base_name nip s = b'N' ∷ b'I' ∷ b'P' ∷ s
base_name swp s = b'S' ∷ b'W' ∷ b'P' ∷ s
base_name rot s = b'R' ∷ b'O' ∷ b'T' ∷ s
base_name dup s = b'D' ∷ b'U' ∷ b'P' ∷ s
base_name ovr s = b'O' ∷ b'V' ∷ b'R' ∷ s
base_name equ s = b'E' ∷ b'Q' ∷ b'U' ∷ s
base_name neq s = b'N' ∷ b'E' ∷ b'Q' ∷ s
base_name gth s = b'G' ∷ b'T' ∷ b'H' ∷ s
base_name lth s = b'L' ∷ b'T' ∷ b'H' ∷ s
base_name jmp s = b'J' ∷ b'M' ∷ b'P' ∷ s
base_name jcn s = b'J' ∷ b'C' ∷ b'N' ∷ s
base_name jsr s = b'J' ∷ b'S' ∷ b'R' ∷ s
base_name sth s = b'S' ∷ b'T' ∷ b'H' ∷ s
base_name ldz s = b'L' ∷ b'D' ∷ b'Z' ∷ s
base_name stz s = b'S' ∷ b'T' ∷ b'Z' ∷ s
base_name ldr s = b'L' ∷ b'D' ∷ b'R' ∷ s
base_name str s = b'S' ∷ b'T' ∷ b'R' ∷ s
base_name lda s = b'L' ∷ b'D' ∷ b'A' ∷ s
base_name sta s = b'S' ∷ b'T' ∷ b'A' ∷ s
base_name dei s = b'D' ∷ b'E' ∷ b'I' ∷ s
base_name deo s = b'D' ∷ b'E' ∷ b'O' ∷ s
base_name add s = b'A' ∷ b'D' ∷ b'D' ∷ s
base_name sub s = b'S' ∷ b'U' ∷ b'B' ∷ s
base_name mul s = b'M' ∷ b'U' ∷ b'L' ∷ s
base_name div s = b'D' ∷ b'I' ∷ b'V' ∷ s
base_name and s = b'A' ∷ b'N' ∷ b'D' ∷ s
base_name ora s = b'O' ∷ b'R' ∷ b'A' ∷ s
base_name eor s = b'E' ∷ b'O' ∷ b'R' ∷ s
base_name sft s = b'S' ∷ b'F' ∷ b'T' ∷ s

abbrev flag_char : Bool → ℕ → Text → Text
flag_char true c s = c ∷ s
flag_char false c s = s

-- The flags in the order 2, k, r. The three immediate jumps are runes and have no mnemonic.
abbrev pub flags : Bool → Bool → Bool → Text
flags k r s = flag_char s b'2' (flag_char k b'k' (flag_char r b'r' []))

abbrev pub mnemonic : Op → Option Text
mnemonic brk = some (b'B' ∷ b'R' ∷ b'K' ∷ [])
mnemonic (lit r s) = some (b'L' ∷ b'I' ∷ b'T' ∷ flags false r s)
mnemonic (poly b k r s) = some (base_name b (flags k r s))
mnemonic _ = none

-- The index of each base opcode in the table of references.
base_name-ref :
    (b : Base) (s : Text)
    → parse_opcode (base_name b s) ≡ process_flags s (first_opcode (base_value b))
unfolding parse_opcode parse_ref base_opcode_refs brk_ref base_value
base_name-ref inc s = refl
base_name-ref _ s = refl

-- The flags set their bits, none of which was set.
flags-value :
    (b : Base) (k r s : Bool)
    → process_flags (flags k r s) (first_opcode (base_value b))
      ≡ some record { opcode = value (poly b k r s); has_redundant_flag = false }
unfolding process_flags add_flag flag_of first_opcode base_value value opcode_value
flags-value inc false false false = refl
flags-value _ false false false = refl
flags-value inc false false true = refl
flags-value _ false false true = refl
flags-value inc false true false = refl
flags-value _ false true false = refl
flags-value inc false true true = refl
flags-value _ false true true = refl
flags-value inc true false false = refl
flags-value _ true false false = refl
flags-value inc true false true = refl
flags-value _ true false true = refl
flags-value inc true true false = refl
flags-value _ true true false = refl
flags-value inc true true true = refl
flags-value _ true true true = refl

lit_value :
    (r s : Bool)
    → parse_opcode (b'L' ∷ b'I' ∷ b'T' ∷ flags false r s)
      ≡ some record { opcode = value (lit r s); has_redundant_flag = false }
unfolding parse_opcode parse_ref base_opcode_refs brk_ref process_flags add_flag flag_of
    first_opcode value opcode_value
lit_value false false = refl
lit_value false true = refl
lit_value true false = refl
lit_value true true = refl

mnemonic_value :
    (op : Op) (name : Text)
    → mnemonic op ≡ some name
    → parse_opcode name ≡ some record { opcode = value op; has_redundant_flag = false }
mnemonic_value brk name h =
    unfold parse_opcode parse_ref brk_ref value in rw (← some-injective _ _ h) refl
mnemonic_value jci name h = absurd (ground arith)
mnemonic_value jmi name h = absurd (ground arith)
mnemonic_value jsi name h = absurd (ground arith)
mnemonic_value (lit r s) name h = rw (← some-injective _ _ h) (lit_value r s)
mnemonic_value (poly b k r s) name h =
    rw (← some-injective _ _ h) (base_name-ref b (flags k r s) ∙ flags-value b k r s)

-- Every mnemonic is read as its opcode, which the machine dispatches to the label that it names,
-- and no flag in it is taken as redundant.
pub parse_opcode-mnemonic :
    (op : Op) (name : Text)
    → mnemonic op ≡ some name
    → (r : OpcodeResult) × (parse_opcode name ≡ some r)
      × (dispatch r.opcode ≡ some op)
      × (r.has_redundant_flag ≡ false)
parse_opcode-mnemonic op name h =
    let e = mnemonic_value op name h in
    (record { opcode = value op; has_redundant_flag = false }, e, dispatch-value op, refl)
