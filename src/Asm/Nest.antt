-- ===== src/Asm/Nest.antt =====
-- src/asm/asm.c: the expansion of a macro and the inclusion of a file, around the run of the unit
-- that they start.
use Prim.Native.String.{String}
use buxn.Prelude.{
  ℕ, ◌+◌, ◌-◌, Bool, true, false, ◌||◌, Option, none, some, List, [], ◌∷◌, ◌++◌, leb, ◌==◌,
  if◌then◌else◌,
}
use buxn.Asm.Text.{Text, text_eq}
use buxn.Asm.State.{
  FilePos, Token, Input, AsmUnit, file_unit, macro_unit, ref_rel, ref_short, Entry, macro, label,
  Symbol, sym_macro_ref, Act, ◌>>=◌, ◌>>◌, pure, fail, gets, modify, attempt, when,
}
use buxn.Asm.Report.{error_ex, error, warning, file_region, put_symbol}
use buxn.Asm.Opcode.{OpcodeResult, parse_opcode}
use buxn.Asm.Expand.{next_token}
use buxn.Asm.Macro.{named_sym}
use buxn.Asm.Symbols.{set_referenced, find_or_create_symbol, update_symbol, set_entry}
use buxn.Asm.Emit.{emit_backward_ref, emit_opcode}
use buxn.Asm.Label.{emit_forward_ref}
use buxn.Asm.Ref.{info_of}

-- A call while another unit is the current one.
unfoldable pub in_unit : {A : Type 0} → AsmUnit → Act A → Act A
in_unit u m a = let r = m (record a { current = u }) in (r.0, record r.1 { current = a.current })

-- `++basm->preprocessor_depth` before a call and `--basm->preprocessor_depth` after it.
unfoldable pub deeper : {A : Type 0} → Act A → Act A
deeper m a =
    let r = m (record a { preprocessor_depth = a.preprocessor_depth + 1 }) in
    (r.0, record r.1 { preprocessor_depth = r.1.preprocessor_depth - 1 })

-- `BUXN_ASM_MAX_PREPROCESSOR_DEPTH`
abbrev pub max_preprocessor_depth : ℕ
max_preprocessor_depth = 32

abbrev ends_with : ℕ → Text → Bool
ends_with ch [] = false
ends_with ch (c ∷ []) = c == ch
ends_with ch (c ∷ d ∷ s) = ends_with ch (d ∷ s)

-- An error without an argument, if nothing has failed yet.
unfoldable pub no_argument : Token → Act Text
no_argument token = gets (λ a. a.success) >>= λ success.
    if success then error token "Macro expects an argument" else fail

abbrev pub got_argument : Token → Option Token → Act Text
got_argument token none = no_argument token
got_argument token (some arg) = pure arg.lexeme

-- The name of a macro that takes an argument ends with a colon.
unfoldable pub macro_argument : (fuel : ℕ) → Token → Text → Act Text
unfolding no_argument next_token
macro_argument fuel token key =
    if ends_with b':' key then attempt (next_token fuel) >>= got_argument token else pure []

abbrev set_expanding : Bool → Symbol → Symbol
set_expanding b s = elim s.entry [ macro id body expanding ↦ set_entry (macro id body b) s | _ ↦ s ]

-- An error that explains which expansion, or which include, failed.
abbrev pub explain : Token → String → Option (Unit {0}) → Act (Unit {0})
explain token message none = error token message
explain token message (some u) = pure u

-- `run` processes the current unit.
module _ (run : Act (Unit {0})) where
  unfoldable pub expand_body : Text → List Token → Text → Act (Option (Unit {0}))
  unfolding update_symbol in_unit deeper
  expand_body key body argument = do
    update_symbol key (set_expanding true)
    success ← attempt (deeper (in_unit (macro_unit body argument) run))
    update_symbol key (set_expanding false)
    pure success

  unfoldable pub expand_macro : (fuel : ℕ) → Token → Text → ℕ → List Token → Bool → Act (Unit {0})
  unfolding macro_argument expand_body
  expand_macro fuel token key id body expanding = do
    depth ← gets λ a. a.preprocessor_depth
    when (leb max_preprocessor_depth depth) (error token "Max preprocessor depth depth reached")
    when expanding (error token "Macro recursion detected")
    put_symbol 0 (named_sym sym_macro_ref key id token.region)
    argument ← macro_argument fuel token key
    success ← expand_body key body argument
    explain token "Error while expanding macro" success

  -- A word that is no opcode: a macro, or a call of a label.
  abbrev pub symbol_word : (fuel : ℕ) → Token → Symbol → Entry → Act (Unit {0})
  symbol_word fuel token s (macro id body expanding) =
      update_symbol s.key (set_referenced true) >> expand_macro fuel token s.key id body expanding
  symbol_word fuel token s (label id address) =
      update_symbol s.key (set_referenced true)
      >> emit_opcode token 0x60 false
      >> emit_backward_ref token ref_rel ref_short (info_of s id address) true false
  symbol_word fuel token s e =
      emit_opcode token 0x60 false >> emit_forward_ref token ref_rel ref_short s false

  abbrev pub word_as : (fuel : ℕ) → Token → Option OpcodeResult → Act (Unit {0})
  word_as fuel token (some r) =
      when r.has_redundant_flag (warning token "Opcode contains redundant flags")
      >> emit_opcode token r.opcode false
  word_as fuel token none =
      find_or_create_symbol token token.lexeme >>= λ s. symbol_word fuel token s s.entry

  unfoldable pub process_word : (fuel : ℕ) → Token → Act (Unit {0})
  unfolding parse_opcode find_or_create_symbol expand_macro emit_opcode emit_backward_ref
      emit_forward_ref update_symbol
  process_word fuel token = word_as fuel token (parse_opcode token.lexeme)

abbrev includes_text : Text → List Text → Bool
includes_text name [] = false
includes_text name (t ∷ included) = text_eq t name || includes_text name included

abbrev start_pos : FilePos
start_pos = record { line = 1; col = 1; byte = 0 }

unfoldable pub add_include : Text → Act (Unit {0})
add_include name = modify λ a. record a { includes = name ∷ a.includes }

-- The host's files: what `fgetc` gives, one after the other, of a file that can be opened.
module _ (fopen : Text → Option (List Input)) (run : Act (Unit {0})) where
  abbrev pub process_opened : Text → Option (List Input) → Act (Unit {0})
  process_opened path none = error_ex "Could not open file" (file_region path) none
  process_opened path (some file) = in_unit (file_unit file path start_pos) run

  unfoldable pub process_file : Text → Act (Unit {0})
  unfolding in_unit
  process_file path = process_opened path (fopen path)

  abbrev pub include_new : Text → Token → Bool → Act (Unit {0})
  include_new name token true = pure tt
  include_new name token false = do
    add_include name
    success ← attempt (deeper (process_file name))
    explain token "Error while processing include" success

  unfoldable pub process_include : Text → Token → Act (Unit {0})
  unfolding process_file deeper add_include
  process_include name token = gets (λ a. includes_text name a.includes) >>= include_new name token

  unfoldable pub defer_include : Text → Token → Act (Unit {0})
  defer_include name token = modify λ a. record a {
    deferred_includes =
        if includes_text name a.includes
        then a.deferred_includes
        else a.deferred_includes
          ++ record { included_filename = name; triggering_token = token } ∷ [];
  }
