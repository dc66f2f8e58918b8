-- ===== src/Asm/Label.antt =====
-- src/asm/asm.c: labels and the references to them.
use buxn.Prelude.{
  ℕ, ◌+◌, Bool, true, false, ◌||◌, Option, none, some, List, [], ◌∷◌, ◌++◌, ltb, ◌==◌,
  if◌then◌else◌, u16, length,
}
use buxn.Asm.Text.{Text, is_runic}
use buxn.Asm.State.{
  Token, LabelRefType, LabelRefSize, ref_byte, ref_short, ForwardRef, Entry, unknown, label,
  forward_ref, Symbol, sym_label, sym_label_ref, Sym, Act, ◌>>=◌, ◌>>◌, pure, gets, modify, attempt,
}
use buxn.Asm.Report.{error, error2, put_symbol, put_symbol2}
use buxn.Asm.Emit.{
  operand_region, LabelInfo, emit_backward_ref, emit2, write_addr, emit, set_write_addr,
}
use buxn.Asm.Symbols.{set_referenced, update_symbol, set_entry, find_or_create_symbol}
use buxn.Asm.Lexer.{max_token_len}

-- The references that were made before the label, patched one after the other. An error is
-- recorded and does not end the loop.
unfoldable pub patch : LabelInfo → List ForwardRef → Act (Unit {0})
unfolding set_write_addr emit_backward_ref
patch l [] = pure tt
patch l (r ∷ refs) = do
  set_write_addr r.addr
  patched ← attempt (emit_backward_ref r.token r.type r.size l false false)
  patch l refs

abbrev is_nonempty : List ForwardRef → Bool
is_nonempty [] = false
is_nonempty (r ∷ refs) = true

-- The label's address is where the assembler writes now.
unfoldable pub define_label : Token → Symbol → (id : ℕ) → List ForwardRef → Act Symbol
unfolding update_symbol patch set_write_addr
define_label token symbol id refs = do
  at ← write_addr
  update_symbol symbol.key (set_entry (label id at))
  patch
      record {
        name = some symbol.key;
        id = id;
        address = at;
        defining_token = symbol.defining_token;
      }
      refs
  update_symbol symbol.key (set_referenced (is_nonempty refs))
  set_write_addr at
  put_symbol at record {
    type = sym_label;
    name_is_generated = false;
    id = id;
    name = some symbol.key;
    region = token.region;
  }
  pure symbol

-- `++basm->num_labels`
unfoldable pub next_label_id : Act ℕ
next_label_id = do
  modify λ a. record a { num_labels = u16 (a.num_labels + 1) }
  gets λ a. a.num_labels

abbrev pub register_entry : Token → Symbol → Entry → Act Symbol
register_entry token symbol unknown = next_label_id >>= λ id. define_label token symbol id []
register_entry token symbol (forward_ref id refs) = define_label token symbol id refs
register_entry token symbol e =
    error2 token "Duplicated definition" symbol.defining_token "Previously defined here"

unfoldable pub register_label : Token → Text → Act Symbol
unfolding find_or_create_symbol define_label next_label_id
register_label token name = do
  symbol ← find_or_create_symbol token name
  register_entry token symbol symbol.entry

-- The name behind the scope's and a slash.
abbrev scoped : Token → Text → Text → Act Text
scoped token local_name scope_name =
    if ltb max_token_len (length local_name + length scope_name + 1)
    then error token "Label name is too long"
    else pure (scope_name ++ b'/' ∷ local_name)

unfoldable pub resolve_local_name : Token → Text → Act Text
resolve_local_name token local_name = gets (λ a. a.label_scope) >>= scoped token local_name

unfoldable pub resolve_label_ref : Token → Text → Act Text
unfolding resolve_local_name
resolve_label_ref token [] = error token "Reference cannot be empty"
resolve_label_ref token (c ∷ name) =
    if (c == b'&') || (c == b'/') then resolve_local_name token name else pure (c ∷ name)

-- The operand of a reference whose address is not known yet.
unfoldable pub emit_addr_placeholder :
    Token → LabelRefSize → Option Text → ℕ → Bool → Act (Unit {0})
unfolding emit emit2
emit_addr_placeholder token size name id is_runic =
    let sym : Sym = record {
      type = sym_label_ref;
      name_is_generated = false;
      id = id;
      name = name;
      region = operand_region is_runic token.region;
    } in
    elim size [
      | ref_byte ↦ do addr ← write_addr; emit token 0x01; put_symbol addr sym
      | ref_short ↦ do addr ← write_addr; emit2 token 0x01; put_symbol2 addr sym
    ]

-- The identity of a symbol that is referenced, which then is a forward reference.
abbrev pub forward_id : Symbol → Entry → Act ℕ
forward_id symbol (forward_ref id refs) = pure id
forward_id symbol e = do
  id ← next_label_id
  update_symbol symbol.key (set_entry (forward_ref id []))
  pure id

abbrev add_ref : ForwardRef → Symbol → Symbol
add_ref r s = elim s.entry [ forward_ref id refs ↦ set_entry (forward_ref id (r ∷ refs)) s | _ ↦ s ]

unfoldable pub emit_forward_ref :
    Token → LabelRefType → LabelRefSize → Symbol → Bool → Act (Unit {0})
unfolding emit_addr_placeholder update_symbol next_label_id
emit_forward_ref token type size symbol is_runic = do
  id ← forward_id symbol symbol.entry
  addr ← write_addr
  emit_addr_placeholder token size (some symbol.key) id is_runic
  update_symbol symbol.key (
      add_ref record {
        token = token;
        label_id = 0;
        lambda_id = 0;
        addr = addr;
        type = type;
        size = size;
      })

-- `basm->num_lambdas++`
unfoldable pub next_lambda_id : Act ℕ
next_lambda_id = do
  id ← gets λ a. a.num_lambdas
  modify λ a. record a { num_lambdas = u16 (a.num_lambdas + 1) }
  pure id

unfoldable pub push_lambda : ForwardRef → Act (Unit {0})
push_lambda r = modify λ a. record a { lambdas = r ∷ a.lambdas }

unfoldable pub emit_lambda_ref : Token → LabelRefType → LabelRefSize → Bool → Act (Unit {0})
unfolding emit_addr_placeholder next_label_id next_lambda_id push_lambda
emit_lambda_ref token type size is_runic = do
  addr ← write_addr
  label_id ← next_label_id
  emit_addr_placeholder token size none label_id is_runic
  lambda_id ← next_lambda_id
  push_lambda record {
    token = token;
    label_id = label_id;
    lambda_id = lambda_id;
    addr = addr;
    type = type;
    size = size;
  }

abbrev pub pop_first : List ForwardRef → Act (Option ForwardRef)
pop_first [] = pure none
pop_first (r ∷ refs) = modify (λ a. record a { at_labels = refs }) >> pure (some r)

unfoldable pub pop_at_label : Act (Option ForwardRef)
pop_at_label = gets (λ a. a.at_labels) >>= pop_first
