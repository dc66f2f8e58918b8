-- ===== src/Asm/Process.antt =====
-- src/asm/asm.c: the loop over the tokens of a unit.
use buxn.Prelude.{
  ℕ, zero, suc, Bool, true, Option, none, some, List, leb, ◌==◌, if◌then◌else◌, length,
}
use buxn.Asm.Text.{Text, is_number, str_pop_front}
use buxn.Asm.State.{
  Token, Input, LabelRefType, ref_zero, ref_abs, ref_rel, LabelRefSize, ref_byte, ref_short,
  sym_include, Act, ◌>>=◌, ◌>>◌, pure, fail, starve, gets, attempt, when,
}
use buxn.Asm.Report.{error}
use buxn.Asm.Ref.{
  process_local_label, process_global_label, process_lambda_close, emit_jsi, emit_label_ref,
}
use buxn.Asm.Nest.{max_preprocessor_depth, defer_include, process_word, process_include}
use buxn.Asm.Macro.{first_char, process_macro, process_mark, process_comment, put_here}
use buxn.Asm.Expand.{next_token}
use buxn.Asm.Literal.{
  process_text, process_lit_number, process_rel_padding, process_abs_padding, process_raw_number,
}
use buxn.Asm.Emit.{emit_opcode}

-- The runes that emit an opcode, or none, and a reference.
abbrev rune_ref : Token → Option ℕ → LabelRefType → LabelRefSize → Act (Unit {0})
rune_ref token none type size = emit_label_ref token type size (str_pop_front token.lexeme) true
rune_ref token (some opcode) type size =
    emit_opcode token opcode true
    >> emit_label_ref token type size (str_pop_front token.lexeme) true

-- A rune that may not have anything behind it.
abbrev standalone : Token → Act (Unit {0}) → Act (Unit {0})
standalone token m = if length token.lexeme == 1 then m else error token "Invalid runic token"

module _ (fopen : Text → Option (List Input)) (run : Act (Unit {0})) where
  abbrev include_named : Token → Text → Bool → Act (Unit {0})
  include_named token name deferred =
      put_here sym_include name 0 token.region
      >> (if deferred
          then defer_include fopen run name token
          else process_include fopen run name token)

  -- Two tildes defer the include.
  unfoldable pub process_tilde : Token → Act (Unit {0})
  unfolding process_include defer_include put_here
  process_tilde token = do
    depth ← gets λ a. a.preprocessor_depth
    when (leb max_preprocessor_depth depth) (error token "Max preprocessor depth depth reached")
    let name = str_pop_front token.lexeme
    let deferred = first_char name == b'~'
    include_named token (if deferred then str_pop_front name else name) deferred

  abbrev process_plain : (fuel : ℕ) → Token → Act (Unit {0})
  process_plain fuel token =
      if is_number token.lexeme then process_raw_number token else process_word run fuel token

  -- The runes of references and of code.
  unfoldable pub process_code : (fuel : ℕ) → Token → ℕ → Act (Unit {0})
  unfolding emit_label_ref emit_opcode emit_jsi process_lambda_close process_abs_padding
      process_rel_padding process_lit_number process_text process_word process_raw_number is_number
  process_code fuel token c =
      if c == b'!'
      then rune_ref token (some 0x40) ref_rel ref_short
      else if c == b'?'
      then rune_ref token (some 0x20) ref_rel ref_short
      else if c == b'}'
      then standalone token (process_lambda_close token)
      else if c == b'{'
      then standalone token (emit_jsi token)
      else if c == b'/'
      then emit_jsi token
      else if c == b'|'
      then process_abs_padding token
      else if c == b'$'
      then process_rel_padding token
      else if c == b'#'
      then process_lit_number token
      else if c == b'.'
      then rune_ref token (some 0x80) ref_zero ref_byte
      else if c == b'-'
      then rune_ref token none ref_zero ref_byte
      else if c == b','
      then rune_ref token (some 0x80) ref_rel ref_byte
      else if c == b'_'
      then rune_ref token none ref_rel ref_byte
      else if c == b';'
      then rune_ref token (some 0xa0) ref_abs ref_short
      else if c == b'='
      then rune_ref token none ref_abs ref_short
      else if c == 34
      then process_text token
      else process_plain fuel token

  -- The switch over the first character.
  unfoldable pub process_token : (fuel : ℕ) → Token → Act (Unit {0})
  unfolding process_code process_tilde process_comment process_mark process_macro
      process_global_label process_local_label
  process_token fuel token =
      let c = first_char token.lexeme in
      if c == b'('
      then process_comment fuel token
      else if c == b')'
      then error token "Unexpected rune"
      else if c == b'['
      then process_mark token
      else if c == b']'
      then standalone token (process_mark token)
      else if c == b'~'
      then process_tilde token
      else if c == b'%'
      then process_macro fuel token
      else if c == b'@'
      then process_global_label token
      else if c == b'&'
      then process_local_label token
      else process_code fuel token c

-- At the end of the unit it succeeds if nothing has failed.
unfoldable pub unit_end : Act (Unit {0})
unit_end = gets (λ a. a.success) >>= λ success. if success then pure tt else fail

abbrev pub unit_next : (Token → Act (Unit {0})) → Act (Unit {0}) → Option Token → Act (Unit {0})
unit_next process more none = unit_end
unit_next process more (some token) = process token >> more

module _ (fopen : Text → Option (List Input)) where
  -- The fuel bounds the tokens of a unit together with those of the units that they start.
  unfoldable pub process_unit : (fuel : ℕ) → Act (Unit {0})
  unfolding next_token process_token unit_end
  process_unit zero = starve
  process_unit (suc fuel) =
      let more = process_unit fuel in
      attempt (next_token fuel) >>= unit_next (process_token fopen more fuel) more
