-- ===== src/Asm/Tests.antt =====
-- src/asm/asm.c: programs that are assembled.
use Prim.Native.String.{String}
use buxn.Prelude.{
  ◌≢◌, AllBytes, ℕ, zero, suc, ◌+◌, ◌<◌, ◌≡◌, refl, Bool, true, false, not, Option, some, List, [],
  ◌∷◌, arith, Bytes,
}
use buxn.Asm.Text.{Text, is_sep}
use buxn.Vm.Tests.{quiet}
use buxn.Vm.Opcode.{poly, add}
use buxn.Asm.Lexer.Sizes.{fits}
use buxn.Asm.Hamt.{empty, fill, first_entry, search_trie}
use buxn.Asm.Hamt.Lookup.{search_trie-fill}
use buxn.Prelude.{==_iff, ◌==◌}
use buxn.Asm.State.{
  Token, Input, char, file_unit, ref_rel, ref_short, ForwardRef, unknown, Symbol, Asm, done, stuck,
  ◌>>=◌, pure, fail, gets, modify, attempt,
}
use buxn.Asm.Report.{warning, no_pos, file_region, put_symbol}
use Prim.Native.Char.{code}
use buxn.Asm.Nest.{in_unit}
use buxn.Asm.Resolve.{resolve, initial, assemble}
use buxn.Asm.Nest.{process_file}
use buxn.Asm.Process.{process_token, process_unit}
use buxn.Asm.Expand.{next_token}
use buxn.Asm.Lexer.{next_token_in_file, get_char}
use buxn.Asm.Evolve.{has_error}
use buxn.Asm.Number.Bounds.{parse_number-short_digits, short_digits, parse_number-Sized, Sized}
use buxn.Asm.Settled.{AllSettled, assemble-Settled}
use buxn.Asm.Number.{number, parse_number}
use buxn.Asm.Opcode.{parse_opcode, OpcodeResult}
use buxn.Asm.Ref.{process_lambda_close}
use buxn.Asm.Label.{define_label}
use buxn.Asm.Evolve.Assemble.{assemble-zero_page, assemble-honest}
use buxn.Asm.Jump.Patch.{AllRefs}
use buxn.Vm.Cpu.{Cpu}
use buxn.Asm.Jump.{JumpsTo}
use buxn.Asm.Jump.Define.{define_label-Resolved, misses, Resolved}
use buxn.Asm.Lexer.Ends.{next_token_in_file-ends}
use buxn.Asm.Lexer.Sizes.{next_token_in_file-fits}
use buxn.Vm.Opcode.{dispatch}
use buxn.Asm.Mnemonic.{parse_opcode-mnemonic}
use buxn.Asm.Jump.Lambda.{process_lambda_close-jump}

-- The characters of a text.
abbrev codes : String → Text
codes String.[] = []
codes (String.◌∷◌ c s) = code c ∷ codes s

abbrev chars : Text → List Input
chars [] = []
chars (c ∷ s) = char c ∷ chars s

-- Every file has the text.
abbrev one_file : String → Text → Option (List Input)
one_file s name = some (chars (codes s))

abbrev bytes : ℕ → ℕ → Bytes → List ℕ
bytes zero addr rom = []
bytes (suc n) addr rom = rom addr ∷ bytes n (addr + 1) rom

-- The result, the end of the program, and its first bytes.
abbrev assembled : String → ℕ → Bool × ℕ × List ℕ
unfolding assemble initial process_file process_unit resolve process_token next_token get_char
    in_unit
assembled s n =
    let a = (assemble (one_file s) 60 (codes "a.tal") initial).1 in
    (a.success, a.write_addr, bytes n 0x100 a.rom)

program :
    assembled "#1234 ;x BRK @x !x" 10
    ≡ (true, 0x10a, 0xa0 ∷ 0x12 ∷ 0x34 ∷ 0xa0 ∷ 0x01 ∷ 0x07 ∷ 0 ∷ 0x40 ∷ 0xff ∷ 0xfd ∷ [])
unfolding assembled ◌>>=◌ attempt gets modify pure is_sep put_symbol fail
program = refl

abbrev small : String
small = "#12 !{ #34 } BRK @x"

small-done : (assemble (one_file small) 60 (codes "a.tal") initial).0 ≡ done tt
unfolding assemble initial process_file process_unit resolve process_token next_token get_char
    in_unit ◌>>=◌ attempt gets modify pure is_sep put_symbol fail warning
small-done = refl

abbrev small_result : Asm
small_result = (assemble (one_file small) 60 (codes "a.tal") initial).1

small-success : small_result.success ≡ true
unfolding assemble initial process_file process_unit resolve process_token next_token get_char
    in_unit ◌>>=◌ attempt gets modify pure is_sep put_symbol fail warning
small-success = refl

assemble-Settled_example : (small_result.lambdas ≡ []) × AllSettled small_result.symtab
assemble-Settled_example =
    assemble-Settled (one_file small) 60 (codes "a.tal") (λ e. ground (arith, small-done, e))
      small-success

assemble-zero_page_example :
    ((i : ℕ) → i < 256 → small_result.rom i ≡ 0) × AllBytes small_result.rom
assemble-zero_page_example = assemble-zero_page (one_file small) 60 (codes "a.tal")

assemble-honest_example :
    (small_result.success ≡ not (has_error small_result.reports))
    × (small_result.preprocessor_depth ≡ 0)
assemble-honest_example = assemble-honest (one_file small) 60 (codes "a.tal")

parse_opcode-mnemonic_example :
    (r : OpcodeResult) × (parse_opcode (b'A' ∷ b'D' ∷ b'D' ∷ b'2' ∷ b'k' ∷ []) ≡ some r)
    × (dispatch r.opcode ≡ some (poly add true false true))
    × (r.has_redundant_flag ≡ false)
parse_opcode-mnemonic_example =
    parse_opcode-mnemonic (poly add true false true) (b'A' ∷ b'D' ∷ b'D' ∷ b'2' ∷ b'k' ∷ []) refl

parse_number-Sized_example : Sized (parse_number (b'1' ∷ b'f' ∷ []))
parse_number-Sized_example = parse_number-Sized (b'1' ∷ b'f' ∷ [])

-- Four digits, as the assembler writes them, are read back.
short_digits_read : parse_number (short_digits 0xbeef) ≡ number 0xbeef 2
short_digits_read = parse_number-short_digits 0xbeef (omega arith)

abbrev here : Token
here = record { lexeme = b'x' ∷ []; region = file_region [] }

abbrev jump_at : ℕ → ForwardRef
jump_at addr = record {
  token = here;
  label_id = 0;
  lambda_id = 0;
  addr = addr;
  type = ref_rel;
  size = ref_short;
}

abbrev open_lambda : Asm
open_lambda = record initial { lambdas = jump_at 0x101 ∷ []; write_addr = 0x110 }

process_lambda_close-jump_example :
    let result = process_lambda_close here open_lambda in
    (result.0 ≡ done tt)
    × (result.1.write_addr ≡ 0x110)
    × (result.1.lambdas ≡ [])
    × ((c : Cpu (Unit {0})) → c.pc ≡ 0x101 → c.vm.memory ≡ result.1.rom → JumpsTo quiet c 0x110)
process_lambda_close-jump_example =
    process_lambda_close-jump quiet here (jump_at 0x101) [] open_lambda refl
      (refl, refl, (omega arith, omega arith)) (omega arith)

abbrev symbol_x : Symbol
symbol_x = record { key = b'x' ∷ []; defining_token = here; referenced = false; entry = unknown }

define_label-Resolved_example :
    let result = define_label here symbol_x 1 (jump_at 0x103 ∷ jump_at 0x100 ∷ []) open_lambda in
    (result.0 ≡ done symbol_x)
    × AllRefs (Resolved result.1.rom 0x110) (jump_at 0x103 ∷ jump_at 0x100 ∷ [])
    × ((i : ℕ)
        → AllRefs (λ r. misses i r ≡ true) (jump_at 0x103 ∷ jump_at 0x100 ∷ [])
        → result.1.rom i ≡ open_lambda.rom i)
    × (result.1.write_addr ≡ 0x110)
define_label-Resolved_example =
    define_label-Resolved here symbol_x 1 (jump_at 0x103 ∷ jump_at 0x100 ∷ []) open_lambda
      (omega arith) (((omega arith, omega arith), refl), (((omega arith, omega arith), refl), tt))
      ((refl, tt), (tt, tt))

abbrev reading : Asm
reading = record initial { current = file_unit (chars (codes "  ADD2 ")) [] no_pos }

next_token_in_file-ends_example : (next_token_in_file 8 reading).0 ≢ stuck
unfolding initial
next_token_in_file-ends_example = next_token_in_file-ends 8 reading (omega arith)

abbrev read_token : Token
read_token = record {
  lexeme = codes "ADD2";
  region = record {
    filename = [];
    start = record { line = 0; col = 2; byte = 2 };
    stop = record { line = 0; col = 6; byte = 6 };
  };
}

read-done : (next_token_in_file 8 reading).0 ≡ done read_token
unfolding next_token_in_file initial ◌>>=◌ attempt gets modify pure is_sep fail
read-done = refl

next_token_in_file-fits_example : fits (codes "ADD2") ≡ true
next_token_in_file-fits_example = next_token_in_file-fits 8 reading read_token read-done

abbrev entries : List (ℕ × ℕ)
entries = (3, 30) ∷ (7, 70) ∷ (3, 31) ∷ []

-- All keys have the same hash.
search_trie-fill_example :
    search_trie (λ a b. a == b) 7 0 (fill (λ a b. a == b) (λ k. 0) entries empty)
    ≡ first_entry (λ a b. a == b) 7 entries
search_trie-fill_example = search_trie-fill (λ a b. a == b) (λ k. 0) ==_iff 7 entries
