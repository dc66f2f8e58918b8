-- ===== src/Asm/Evolve/Label.antt =====
-- src/asm/asm.c: symbols, labels and references change the program behind the zero page only.
use buxn.Asm.Evolve.Sound.{Sound, Sound-modify, Sound-bind, Sound-pure, Sound-gets, sound_rules}
use buxn.Prelude.{ℕ, refl, Bool, Option, none, some, List, [], ◌∷◌}
use buxn.Asm.Text.{Text, is_runic}
use buxn.Asm.Evolve.Emit.{emit_rules}
use buxn.Asm.State.{
  Token, LabelRefType, LabelRefSize, ref_byte, ref_short, ForwardRef, Entry, unknown, macro, label,
  forward_ref, Symbol,
}
use buxn.Asm.Label.{
  next_lambda_id, emit_lambda_ref, push_lambda, register_label, next_label_id, define_label, patch,
  pop_at_label, resolve_local_name, emit_addr_placeholder, pop_first, register_entry,
  emit_forward_ref, forward_id, resolve_label_ref,
}
use buxn.Asm.Symbols.{append_symbol, update_symbol, find_or_create_symbol, find_or_append}
use buxn.Asm.Emit.{LabelInfo}

pub Sound-update_symbol : (name : Text) (f : Symbol → Symbol) → Sound (update_symbol name f)
unfolding update_symbol
Sound-update_symbol name f = Sound-modify _ λ a. (refl, refl, refl, refl)

Sound-find_or_append :
    (token : Token) (name : Text) (s : Option Symbol) → Sound (find_or_append token name s)
unfolding find_or_append append_symbol
Sound-find_or_append token name none =
    Sound-bind _ _ (Sound-modify _ λ a. (refl, refl, refl, refl)) (λ u. Sound-pure _)
Sound-find_or_append token name (some s) = search sound_rules

pub Sound-find_or_create_symbol :
    (token : Token) (name : Text) → Sound (find_or_create_symbol token name)
unfolding find_or_create_symbol
Sound-find_or_create_symbol token name = search (emit_rules, Sound-find_or_append) depth 12

pub ruleset symbol_rules = (emit_rules, Sound-update_symbol, Sound-find_or_create_symbol)

Sound-patch : (l : LabelInfo) (refs : List ForwardRef) → Sound (patch l refs)
unfolding patch
Sound-patch l [] = search sound_rules
Sound-patch l (r ∷ refs) = search (emit_rules, λ (u : Unit {0}). Sound-patch l refs) depth 8

Sound-define_label :
    (token : Token) (s : Symbol) (id : ℕ) (refs : List ForwardRef)
    → Sound (define_label token s id refs)
unfolding define_label
Sound-define_label token s id refs = search (symbol_rules, Sound-patch) depth 14

pub Sound-next_label_id : Sound next_label_id
unfolding next_label_id
Sound-next_label_id =
    Sound-bind _ _ (Sound-modify _ λ a. (refl, refl, refl, refl)) (λ u. Sound-gets _)

pub Sound-next_lambda_id : Sound next_lambda_id
unfolding next_lambda_id
Sound-next_lambda_id =
    Sound-bind _ _ (Sound-gets _)
      λ id. Sound-bind _ _ (Sound-modify _ λ a. (refl, refl, refl, refl)) (λ u. Sound-pure _)

Sound-register_entry : (token : Token) (s : Symbol) (e : Entry) → Sound (register_entry token s e)
Sound-register_entry token s unknown =
    search (symbol_rules, Sound-define_label, Sound-next_label_id)
Sound-register_entry token s (forward_ref id refs) = search (Sound-define_label)
Sound-register_entry token s (label id address) = search symbol_rules
Sound-register_entry token s (macro id body expanding) = search symbol_rules

pub Sound-register_label : (token : Token) (name : Text) → Sound (register_label token name)
unfolding register_label
Sound-register_label token name = search (symbol_rules, Sound-register_entry) depth 8

pub Sound-resolve_local_name : (token : Token) (name : Text) → Sound (resolve_local_name token name)
unfolding resolve_local_name
Sound-resolve_local_name token name = search symbol_rules depth 8

pub Sound-resolve_label_ref : (token : Token) (ref : Text) → Sound (resolve_label_ref token ref)
unfolding resolve_label_ref
Sound-resolve_label_ref token [] = search symbol_rules
Sound-resolve_label_ref token (c ∷ name) = search (symbol_rules, Sound-resolve_local_name)

Sound-emit_addr_placeholder :
    (token : Token) (size : LabelRefSize) (name : Option Text) (id : ℕ) (is_runic : Bool)
    → Sound (emit_addr_placeholder token size name id is_runic)
unfolding emit_addr_placeholder
Sound-emit_addr_placeholder token ref_byte name id is_runic = search symbol_rules depth 8
Sound-emit_addr_placeholder token ref_short name id is_runic = search symbol_rules depth 8

Sound-forward_id : (s : Symbol) (e : Entry) → Sound (forward_id s e)
Sound-forward_id s (forward_ref id refs) = search sound_rules
Sound-forward_id s unknown = search (symbol_rules, Sound-next_label_id) depth 8
Sound-forward_id s (label id address) = search (symbol_rules, Sound-next_label_id) depth 8
Sound-forward_id s (macro id body expanding) = search (symbol_rules, Sound-next_label_id) depth 8

pub Sound-emit_forward_ref :
    (token : Token) (type : LabelRefType) (size : LabelRefSize) (s : Symbol) (is_runic : Bool)
    → Sound (emit_forward_ref token type size s is_runic)
unfolding emit_forward_ref
Sound-emit_forward_ref token type size s is_runic =
    search (symbol_rules, Sound-forward_id, Sound-emit_addr_placeholder) depth 10

Sound-push_lambda : (r : ForwardRef) → Sound (push_lambda r)
unfolding push_lambda
Sound-push_lambda r = Sound-modify _ λ a. (refl, refl, refl, refl)

pub Sound-emit_lambda_ref :
    (token : Token) (type : LabelRefType) (size : LabelRefSize) (is_runic : Bool)
    → Sound (emit_lambda_ref token type size is_runic)
unfolding emit_lambda_ref
Sound-emit_lambda_ref token type size is_runic =
    search
      (
        symbol_rules, Sound-next_label_id, Sound-next_lambda_id, Sound-push_lambda,
        Sound-emit_addr_placeholder,
      )
      depth 12

Sound-pop_first : (refs : List ForwardRef) → Sound (pop_first refs)
Sound-pop_first [] = search sound_rules
Sound-pop_first (r ∷ refs) =
    Sound-bind _ _ (Sound-modify _ λ a. (refl, refl, refl, refl)) (λ u. Sound-pure _)

pub Sound-pop_at_label : Sound pop_at_label
unfolding pop_at_label
Sound-pop_at_label = search (sound_rules, Sound-pop_first)

pub ruleset label_rules = (
  symbol_rules, Sound-next_label_id, Sound-next_lambda_id, Sound-register_label,
  Sound-resolve_local_name, Sound-resolve_label_ref, Sound-emit_forward_ref, Sound-emit_lambda_ref,
  Sound-pop_at_label,
)
