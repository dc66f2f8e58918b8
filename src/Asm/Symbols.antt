-- ===== src/Asm/Symbols.antt =====
-- src/asm/asm.c: the symbol table, as the list of its symbols in the order of `next`. Its nodes and
-- those of the string pool are found by the hash of their name; what is found does not depend on it.
use buxn.Prelude.{Bool, true, false, Option, none, some, List, [], ◌∷◌, ◌++◌, if◌then◌else◌}
use buxn.Asm.Text.{Text, text_eq, is_runic, is_number}
use buxn.Asm.State.{Token, Entry, unknown, Symbol, Act, ◌>>=◌, ◌>>◌, pure, gets, modify}
use buxn.Asm.Report.{error}
use buxn.Asm.Opcode.{parse_opcode}

-- `BUXN_ASM_DEFAULT_LABEL_SCOPE`
abbrev pub default_label_scope : Text
default_label_scope = b'R' ∷ b'E' ∷ b'S' ∷ b'E' ∷ b'T' ∷ []

unfoldable pub find_symbol : Text → List Symbol → Option Symbol
find_symbol name [] = none
find_symbol name (s ∷ table) = if text_eq s.key name then some s else find_symbol name table

-- The node of a name is changed where it stands.
unfoldable update_node : Text → (Symbol → Symbol) → List Symbol → List Symbol
update_node name f [] = []
update_node name f (s ∷ table) =
    if text_eq s.key name then f s ∷ table else s ∷ update_node name f table

unfoldable pub update_symbol : Text → (Symbol → Symbol) → Act (Unit {0})
unfolding update_node
update_symbol name f = modify λ a. record a { symtab = update_node name f a.symtab }

abbrev pub set_entry : Entry → Symbol → Symbol
set_entry e s = record s { entry = e }

abbrev pub set_referenced : Bool → Symbol → Symbol
set_referenced b s = record s { referenced = b }

-- The tests on a name, in their order.
abbrev pub first_is_runic : Text → Bool
first_is_runic [] = false
first_is_runic (c ∷ s) = is_runic c

abbrev is_opcode : Text → Bool
is_opcode name = elim (parse_opcode name) [ none ↦ false | some r ↦ true ]

abbrev pub is_empty : Text → Bool
is_empty [] = true
is_empty (c ∷ s) = false

unfoldable pub append_symbol : Symbol → Act Symbol
append_symbol s = modify (λ a. record a { symtab = a.symtab ++ s ∷ [] }) >> pure s

unfoldable pub find_or_append : Token → Text → Option Symbol → Act Symbol
unfolding append_symbol
find_or_append token name (some s) = pure s
find_or_append token name none =
    append_symbol record { key = name; defining_token = token; referenced = false; entry = unknown }

unfoldable pub find_or_create_symbol : Token → Text → Act Symbol
unfolding find_or_append find_symbol parse_opcode is_runic is_number
find_or_create_symbol token name =
    if is_empty name
    then error token "Symbol name cannot be empty"
    else if first_is_runic name
    then error token "Symbol name cannot be runic"
    else if is_opcode name
    then error token "Symbol name cannot be an opcode"
    else if is_number name
    then error token "Symbol name cannot be numeric"
    else gets (λ a. find_symbol name a.symtab) >>= find_or_append token name
