-- ===== src/Asm/Expand.antt =====
-- src/asm/asm.c: the tokens of a macro with its argument in the place of `^`.
use buxn.Prelude.{
  ℕ, ◌+◌, Bool, true, false, Option, none, some, List, [], ◌∷◌, ◌++◌, ltb, ◌==◌, if◌then◌else◌,
  length,
}
use buxn.Asm.Text.{Text}
use buxn.Asm.State.{
  Token, AsmUnit, file_unit, macro_unit, Act, ◌>>=◌, ◌>>◌, pure, fail, gets, modify,
}
use buxn.Asm.Report.{error}
use buxn.Asm.Lexer.{max_long_string_len, max_token_len, next_token_in_file}

-- The loop over the template, with the buffer and whether it has the argument; `none` where the
-- buffer has no room.
unfoldable expand_loop : Text → Text → Text → Bool → Option (Text × Bool)
expand_loop arg [] buf expanded = some (buf, expanded)
expand_loop arg (ch ∷ s) buf expanded = elim (ch == b'^') [
  | true ↦ elim (ltb max_long_string_len (length buf + length arg)) [
    | true ↦ none
    | false ↦ expand_loop arg s (buf ++ arg) true
  ]
  | false ↦ elim (ltb max_long_string_len (length buf + 1)) [
    | true ↦ none
    | false ↦ expand_loop arg s (buf ++ ch ∷ []) expanded
  ]
]

-- A long string may be longer than another token.
unfoldable expand_limit : Text → ℕ
expand_limit [] = max_token_len
expand_limit (c ∷ s) = if c == 34 then max_long_string_len else max_token_len

-- The lexeme of a template with an argument, which is none where it is empty.
unfoldable pub expand_lexeme : Text → Text → Option Text
unfolding expand_loop expand_limit
expand_lexeme [] template = some template
expand_lexeme (c ∷ arg) template = elim (expand_loop (c ∷ arg) template [] false) [
  | none ↦ none
  | some (buf, expanded) ↦
      if ltb (expand_limit buf) (length buf)
      then none
      else if expanded
      then some buf
      else some template
]

abbrev argument_of : AsmUnit → Text
argument_of (macro_unit current argument) = argument
argument_of u = []

unfoldable pub set_current : List Token → Act (Unit {0})
set_current rest = modify λ a. record a { current = macro_unit rest (argument_of a.current) }

abbrev pub expanded_token : Token → List Token → Option Text → Act Token
expanded_token template rest none = error template "Expanded token is too long"
expanded_token template rest (some lexeme) =
    set_current rest >> pure record { lexeme = lexeme; region = template.region }

-- `buxn_asm_next_token`, with the fuel for the separators of a file.
abbrev pub next_token_of : (fuel : ℕ) → AsmUnit → Act Token
next_token_of fuel (file_unit rest path pos) = next_token_in_file fuel
next_token_of fuel (macro_unit [] argument) = fail
next_token_of fuel (macro_unit (template ∷ rest) argument) =
    expanded_token template rest (expand_lexeme argument template.lexeme)

unfoldable pub next_token : (fuel : ℕ) → Act Token
unfolding next_token_in_file expand_lexeme
next_token fuel = gets (λ a. a.current) >>= next_token_of fuel
