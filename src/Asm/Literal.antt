-- ===== src/Asm/Literal.antt =====
-- src/asm/asm.c: padding, numbers and text.
use buxn.Prelude.{
  ℕ, ◌+◌, ◌%◌, Bool, true, false, not, ◌&&◌, Option, none, some, [], ◌∷◌, ltb, leb, ◌==◌,
  if◌then◌else◌, u16, length,
}
use buxn.Asm.Text.{Text, is_only, is_number, str_pop_front}
use buxn.Asm.State.{
  Token, ForwardRef, Entry, label, Symbol, sym_text, Act, ◌>>=◌, ◌>>◌, pure, gets, when,
}
use buxn.Asm.Report.{error, warning, put_symbol}
use buxn.Asm.Emit.{plain_sym, emit_short, write_addr, emit_opcode, emit_byte, emit, set_write_addr}
use buxn.Asm.Symbols.{set_referenced, find_symbol, is_empty, update_symbol}
use buxn.Asm.Label.{pop_at_label, resolve_label_ref}
use buxn.Asm.Number.{number, invalid, Parsed, parse_number}

-- `buxn_asm_parse_number` on the state: an error is reported.
abbrev pub parsed : Token → Parsed → Act (ℕ × ℕ)
parsed token (invalid message) = error token message
parsed token (number value num_bytes) = pure (value, num_bytes)

unfoldable pub read_number : Token → Text → Act (ℕ × ℕ)
unfolding parse_number
read_number token str = parsed token (parse_number str)

abbrev pub at_padding : Token → Option ForwardRef → Act ℕ
at_padding token none = error token "No previously declared @-label"
at_padding token (some l) = pure l.addr

abbrev pub label_padding : Token → Symbol → Entry → Act ℕ
label_padding token s (label id address) = update_symbol s.key (set_referenced true) >> pure address
label_padding token s e = error token "Invalid symbol is being used for padding"

abbrev pub symbol_padding : Token → Option Symbol → Act ℕ
symbol_padding token none = error token "Undeclared label is used for padding"
symbol_padding token (some s) = label_padding token s s.entry

abbrev pub named_padding : Token → Text → Act ℕ
named_padding token name =
    if is_only b'@' name
    then pop_at_label >>= at_padding token
    else (gets (λ a. find_symbol name a.symtab) >>= symbol_padding token)

unfoldable pub resolve_padding : Token → Act ℕ
unfolding read_number is_number resolve_label_ref pop_at_label find_symbol update_symbol
resolve_padding token =
    let str = str_pop_front token.lexeme in
    if is_empty str
    then error token "Invalid padding"
    else if is_number str
    then (read_number token str >>= λ n. pure n.0)
    else (resolve_label_ref token str >>= named_padding token)

unfoldable pub process_abs_padding : Token → Act (Unit {0})
unfolding resolve_padding set_write_addr
process_abs_padding start = resolve_padding start >>= set_write_addr

unfoldable pub process_rel_padding : Token → Act (Unit {0})
unfolding resolve_padding set_write_addr
process_rel_padding start = do
  padding ← resolve_padding start
  old_addr ← write_addr
  let new_addr = u16 (old_addr + padding)
  set_write_addr new_addr
  when (ltb new_addr old_addr) (warning start "Relative padding caused wrap around")

-- The hexadecimal numbers that stand for bytes have two or four digits.
abbrev bad_digits : Text → Bool
bad_digits [] = false
bad_digits (c ∷ s) = not (c == b'+') && not (length (c ∷ s) == 2) && not (length (c ∷ s) == 4)

abbrev checked_number : Token → Text → Act (ℕ × ℕ)
checked_number token str =
    if is_empty str
    then error token "Invalid number: Empty string"
    else if bad_digits str
    then error token "Invalid number: Invalid number of hex digits"
    else read_number token str

-- LIT with a byte, or LIT2 with a short.
abbrev emit_lit : Token → ℕ → ℕ → Act (Unit {0})
emit_lit start value num_bytes =
    if num_bytes == 1
    then emit_opcode start 0x80 true >> emit_byte start (value % 256) true
    else emit_opcode start 0xa0 true >> emit_short start value true

abbrev emit_raw : Token → ℕ → ℕ → Act (Unit {0})
emit_raw token value num_bytes =
    if num_bytes == 1 then emit_byte token (value % 256) false else emit_short token value false

unfoldable pub process_lit_number : Token → Act (Unit {0})
unfolding read_number emit_opcode emit_byte emit_short
process_lit_number start = do
  n ← checked_number start (str_pop_front start.lexeme)
  emit_lit start n.0 n.1

unfoldable pub process_raw_number : Token → Act (Unit {0})
unfolding read_number emit_byte emit_short
process_raw_number token = do n ← checked_number token token.lexeme; emit_raw token n.0 n.1

-- The loop over the characters behind the quote.
unfoldable pub emit_text : Token → ℕ → Text → Act (Unit {0})
unfolding emit
emit_text token addr [] = pure tt
emit_text token addr (c ∷ s) = do
  emit token c
  put_symbol addr (plain_sym sym_text (length token.lexeme) token.region)
  emit_text token (addr + 1) s

unfoldable pub process_text : Token → Act (Unit {0})
unfolding emit_text
process_text token =
    if leb (length token.lexeme) 1
    then error token "Invalid raw text"
    else (write_addr >>= λ addr. emit_text token addr (str_pop_front token.lexeme))
