-- ===== src/Asm/Ref.antt =====
-- src/asm/asm.c: the runes that refer to a label, and the close of a lambda.
use buxn.Prelude.{
  ℕ, ◌+◌, ◌-◌, ◌/◌, ◌%◌, Bool, true, false, ◌||◌, Option, none, some, List, [], ◌∷◌, ltb, leb, ◌==◌,
  if◌then◌else◌, length,
}
use buxn.Asm.Text.{Text, is_only, is_runic, str_pop_front}
use buxn.Asm.State.{
  Region, Token, LabelRefType, ref_zero, ref_rel, LabelRefSize, ref_byte, ref_short, ForwardRef,
  Entry, macro, label, Symbol, sym_label, Sym, Act, ◌>>=◌, ◌>>◌, pure, gets, modify,
}
use buxn.Asm.Report.{error, put_symbol}
use buxn.Asm.Label.{
  emit_forward_ref, resolve_label_ref, next_lambda_id, next_label_id, pop_at_label,
  resolve_local_name, register_label, emit_lambda_ref,
}
use buxn.Asm.Emit.{
  emit_addr, set_write_addr, calculate_addr, write_addr, emit_opcode, emit_backward_ref, LabelInfo,
}
use buxn.Asm.Symbols.{
  find_or_create_symbol, first_is_runic, set_referenced, update_symbol, is_empty,
}

-- An anonymous reference takes the latest @-label.
abbrev pub emit_at_ref :
    Token → LabelRefType → LabelRefSize → Bool → Option ForwardRef → Act (Unit {0})
emit_at_ref token type size is_runic none = error token "No previously declared @-label"
emit_at_ref token type size is_runic (some l) =
    emit_backward_ref token type size
      record { name = none; id = l.label_id; address = l.addr; defining_token = l.token } true
      is_runic

abbrev pub info_of : Symbol → ℕ → ℕ → LabelInfo
info_of s id address = record {
  name = some s.key;
  id = id;
  address = address;
  defining_token = s.defining_token;
}

abbrev pub emit_symbol_ref :
    Token → LabelRefType → LabelRefSize → Bool → Symbol → Entry → Act (Unit {0})
emit_symbol_ref token type size is_runic s (label id address) =
    update_symbol s.key (set_referenced true)
    >> emit_backward_ref token type size (info_of s id address) true is_runic
emit_symbol_ref token type size is_runic s (macro id body expanding) =
    error token "Invalid reference"
emit_symbol_ref token type size is_runic s e = emit_forward_ref token type size s is_runic

abbrev pub emit_named_ref : Token → LabelRefType → LabelRefSize → Bool → Text → Act (Unit {0})
emit_named_ref token type size is_runic name =
    if is_empty name
    then error token "Reference cannot be empty"
    else if first_is_runic name
    then error token "Reference cannot be runic"
    else (find_or_create_symbol token name >>= λ s.
        emit_symbol_ref token type size is_runic s s.entry)

abbrev pub emit_full_ref : Token → LabelRefType → LabelRefSize → Bool → Text → Act (Unit {0})
emit_full_ref token type size is_runic name =
    if is_only b'@' name
    then pop_at_label >>= emit_at_ref token type size is_runic
    else emit_named_ref token type size is_runic name

unfoldable pub emit_label_ref : Token → LabelRefType → LabelRefSize → Text → Bool → Act (Unit {0})
unfolding emit_lambda_ref resolve_label_ref pop_at_label emit_backward_ref find_or_create_symbol
    emit_forward_ref update_symbol
emit_label_ref token type size name is_runic =
    if is_only b'{' name
    then emit_lambda_ref token type size is_runic
    else resolve_label_ref token name >>= emit_full_ref token type size is_runic

unfoldable pub emit_jsi : Token → Act (Unit {0})
unfolding emit_opcode emit_label_ref
emit_jsi token =
    emit_opcode token 0x60 false >> emit_label_ref token ref_rel ref_short token.lexeme false

-- The two digits of the name's low byte, and those of the high byte without zeros in front.
unfoldable pub hex_digit_char : ℕ → ℕ
hex_digit_char digit = if ltb digit 10 then b'0' + digit else b'a' + (digit - 10)

unfoldable pub write_digits : Bool → List ℕ → Text
unfolding hex_digit_char
write_digits started [] = []
write_digits started (d ∷ digits) =
    let rest = write_digits (started || ltb 0 d || leb (length digits) 1) digits in
    if started || ltb 0 d || leb (length digits) 1 then hex_digit_char d ∷ rest else rest

unfoldable pub make_lambda_name : ℕ → Text
unfolding write_digits
make_lambda_name id =
    b'@' ∷ write_digits false (id / 4096 % 16 ∷ id / 256 % 16 ∷ id / 16 % 16 ∷ id % 16 ∷ [])

abbrev pub generated_sym : ℕ → ℕ → Region → Sym
generated_sym name_id id region = record {
  type = sym_label;
  name_is_generated = true;
  id = id;
  name = some (make_lambda_name name_id);
  region = region;
}

unfoldable pub set_lambdas : List ForwardRef → Act (Unit {0})
set_lambdas refs = modify λ a. record a { lambdas = refs }

abbrev pub close_lambda : Token → List ForwardRef → Act (Unit {0})
close_lambda token [] = error token "Unbalanced lambda"
close_lambda token (r ∷ refs) = do
  current_addr ← write_addr
  addr ← calculate_addr r.token r.type r.addr current_addr
  set_write_addr r.addr
  emit_addr r.token r.type r.size addr token none
  set_write_addr current_addr
  put_symbol current_addr (generated_sym r.lambda_id r.label_id token.region)
  set_lambdas refs

unfoldable pub process_lambda_close : Token → Act (Unit {0})
unfolding calculate_addr set_write_addr emit_addr make_lambda_name set_lambdas
process_lambda_close token = gets (λ a. a.lambdas) >>= close_lambda token

-- The label is not really a forward reference, but has the same fields.
unfoldable pub push_at_label : Token → ℕ → ℕ → Act (Unit {0})
push_at_label token label_id lambda_id = modify λ a. record a {
  at_labels =
      record {
        token = token;
        label_id = label_id;
        lambda_id = lambda_id;
        addr = a.write_addr;
        type = ref_zero;
        size = ref_byte;
      }
      ∷ a.at_labels;
}

unfoldable pub set_label_scope : Text → Act (Unit {0})
set_label_scope scope = modify λ a. record a { label_scope = scope }

-- The name up to a slash.
abbrev up_to_slash : Text → Text
up_to_slash [] = []
up_to_slash (c ∷ s) = if c == b'/' then [] else c ∷ up_to_slash s

abbrev anonymous_label : Token → Act (Unit {0})
anonymous_label start = do
  label_id ← next_label_id
  lambda_id ← next_lambda_id
  push_at_label start label_id lambda_id
  at ← write_addr
  put_symbol at (generated_sym label_id label_id start.region)

abbrev named_label : Token → Text → Act (Unit {0})
named_label start name = register_label start name >>= λ s. set_label_scope (up_to_slash s.key)

unfoldable pub process_global_label : Token → Act (Unit {0})
unfolding next_label_id next_lambda_id push_at_label make_lambda_name register_label set_label_scope
process_global_label start =
    let name = str_pop_front start.lexeme in
    if is_only b'@' name then anonymous_label start else named_label start name

unfoldable pub process_local_label : Token → Act (Unit {0})
unfolding resolve_local_name register_label
process_local_label start = do
  name ← resolve_local_name start (str_pop_front start.lexeme)
  s ← register_label start name
  pure tt
