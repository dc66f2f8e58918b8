-- ===== src/Asm/Macro.antt =====
-- src/asm/asm.c: comments, marks and the definition of macros. The fuel bounds the tokens of each
-- loop, and the separators before a token.
use buxn.Prelude.{
  ℕ, zero, suc, ◌+◌, ◌-◌, Bool, false, ◌&&◌, ◌||◌, Option, none, some, [], ◌∷◌, ◌++◌, ltb, ◌==◌,
  if◌then◌else◌, u16,
}
use buxn.Asm.Text.{Text, is_only, str_pop_front}
use buxn.Asm.State.{
  Region, Token, Entry, unknown, macro, forward_ref, Symbol, SymType, sym_macro, sym_comment,
  sym_mark, Sym, Act, ◌>>=◌, ◌>>◌, pure, starve, gets, modify, attempt, when,
}
use buxn.Asm.Report.{error_ex, error, error2, put_symbol}
use buxn.Asm.Expand.{next_token}
use buxn.Asm.Symbols.{set_entry, update_symbol, find_or_create_symbol}
use buxn.Asm.Emit.{write_addr}

abbrev pub named_sym : SymType → Text → ℕ → Region → Sym
named_sym type name id region = record {
  type = type;
  name_is_generated = false;
  id = u16 id;
  name = some name;
  region = region;
}

unfoldable pub put_here : SymType → Text → ℕ → Region → Act (Unit {0})
put_here type name id region = write_addr >>= λ at. put_symbol at (named_sym type name id region)

abbrev comment_depth : Text → ℕ → ℕ
comment_depth lexeme depth =
    if is_only b'(' lexeme then depth + 1 else if is_only b')' lexeme then depth - 1 else depth

abbrev pub comment_next : (ℕ → Act (Unit {0})) → Token → ℕ → Option Token → Act (Unit {0})
comment_next more start depth none = error_ex "Unbalanced comment" start.region none
comment_next more start depth (some token) =
    put_here sym_comment token.lexeme depth token.region >> more (comment_depth token.lexeme depth)

-- The loop of `buxn_asm_process_comment`, which ends at depth 0.
unfoldable pub comment_loop : (fuel : ℕ) → Token → (depth : ℕ) → Act (Unit {0})
unfolding next_token put_here
comment_loop fuel start zero = pure tt
comment_loop zero start (suc depth) = starve
comment_loop (suc fuel) start (suc depth) =
    let more = comment_loop fuel start in
    attempt (next_token fuel) >>= comment_next more start (suc depth)

unfoldable pub process_comment : (fuel : ℕ) → Token → Act (Unit {0})
unfolding comment_loop put_here
process_comment fuel start =
    put_here sym_comment start.lexeme 0 start.region >> comment_loop fuel start 1

unfoldable pub process_mark : Token → Act (Unit {0})
unfolding put_here
process_mark token = put_here sym_mark token.lexeme 0 token.region

abbrev pub first_char : Text → ℕ
first_char [] = 0
first_char (c ∷ s) = c

-- What may stand between the name of a macro and its brace.
abbrev pub macro_head : Act (Unit {0}) → (fuel : ℕ) → Token → Act (Unit {0})
macro_head more fuel token =
    let c = first_char token.lexeme in
    if c == b'('
    then process_comment fuel token >> more
    else if c == b'['
    then process_mark token >> more
    else if c == b']'
    then (if is_only b']' token.lexeme
        then process_mark token >> more
        else error token "Invalid runic token")
    else if is_only b'{' token.lexeme
    then pure tt
    else error token "Macro must be followed by '{'"

abbrev pub head_next : Act (Unit {0}) → (fuel : ℕ) → Token → Option Token → Act (Unit {0})
head_next more fuel start none = error start "Macro must be followed by '{'"
head_next more fuel start (some token) = macro_head more fuel token

unfoldable pub find_open_brace : (fuel : ℕ) → Token → Act (Unit {0})
unfolding next_token process_comment process_mark
find_open_brace zero start = starve
find_open_brace (suc fuel) start =
    let more = find_open_brace fuel start in attempt (next_token fuel) >>= head_next more fuel start

-- A rune that refers to a label, before a lambda.
unfoldable pub opens_lambda : Text → Bool
opens_lambda (c ∷ d ∷ []) =
    ((c == b',')
      || (c == b'_')
      || (c == b'.')
      || (c == b'-')
      || (c == b';')
      || (c == b'=')
      || (c == b'!')
      || (c == b'?'))
    && (d == b'{')
opens_lambda _ = false

abbrev body_depth : Text → ℕ → ℕ
body_depth lexeme depth =
    if is_only b'}' lexeme then depth - 1 else if opens_lambda lexeme then depth + 1 else depth

abbrev add_token : Token → Symbol → Symbol
add_token token s = elim s.entry [
  | macro id body expanding ↦ set_entry (macro id (body ++ token ∷ []) expanding) s
  | _ ↦ s
]

abbrev pub body_next :
    (ℕ → Act (Unit {0})) → Token → Text → (depth : ℕ) → Option Token → Act (Unit {0})
body_next more start key depth none = error_ex "Macro has unbalanced `{`" start.region none
body_next more start key depth (some token) =
    let inner = body_depth token.lexeme depth in
    if first_char token.lexeme == b'%'
    then error2 token "Nested macro definition detected" start "In this macro definition"
    else (when (ltb 0 inner) (update_symbol key (add_token token)) >> more inner)

-- The tokens up to the brace that closes the macro are its body.
unfoldable pub body_loop : (fuel : ℕ) → Token → Text → (depth : ℕ) → Act (Unit {0})
unfolding next_token opens_lambda update_symbol
body_loop fuel start key zero = pure tt
body_loop zero start key (suc depth) = starve
body_loop (suc fuel) start key (suc depth) =
    let more = body_loop fuel start key in
    attempt (next_token fuel) >>= body_next more start key (suc depth)

-- `++basm->num_macros`
unfoldable pub next_macro_id : Act ℕ
next_macro_id = do
  modify λ a. record a { num_macros = u16 (a.num_macros + 1) }
  gets λ a. a.num_macros

abbrev set_macro_id : ℕ → Symbol → Symbol
set_macro_id id s = elim s.entry [
  | macro old body expanding ↦ set_entry (macro id body expanding) s
  | _ ↦ s
]

unfoldable pub create_macro : (fuel : ℕ) → Token → Text → Act (Unit {0})
unfolding next_macro_id find_open_brace body_loop update_symbol
create_macro fuel start key = do
  id ← next_macro_id
  put_symbol 0 (named_sym sym_macro key id start.region)
  find_open_brace fuel start
  update_symbol key (set_entry (macro 0 [] false))
  body_loop fuel start key 1
  update_symbol key (set_macro_id id)

abbrev pub define_macro : (fuel : ℕ) → Token → Symbol → Entry → Act (Unit {0})
define_macro fuel start s unknown = create_macro fuel start s.key
define_macro fuel start s (forward_ref id refs) =
    error2 start "Conflicting definition" s.defining_token "Previously seen here as a label"
define_macro fuel start s e =
    error2 start "Conflicting definition" s.defining_token "Previously defined here"

unfoldable pub process_macro : (fuel : ℕ) → Token → Act (Unit {0})
unfolding find_or_create_symbol create_macro
process_macro fuel start = find_or_create_symbol start (str_pop_front start.lexeme) >>= λ s.
    define_macro fuel start s s.entry
