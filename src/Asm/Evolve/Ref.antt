-- ===== src/Asm/Evolve/Ref.antt =====
-- src/asm/asm.c: the runes and the literals change the program behind the zero page only.
use buxn.Asm.Evolve.Sound.{Sound, Sound-modify}
use buxn.Prelude.{ℕ, ◌+◌, refl, Bool, Option, none, some, List, [], ◌∷◌}
use buxn.Asm.Text.{Text, is_runic}
use buxn.Asm.Evolve.Label.{label_rules}
use buxn.Asm.State.{
  Token, LabelRefType, LabelRefSize, ForwardRef, Entry, unknown, macro, label, forward_ref, Symbol,
}
use buxn.Asm.Ref.{
  process_local_label, emit_symbol_ref, emit_named_ref, emit_at_ref, emit_full_ref, emit_label_ref,
  emit_jsi, process_global_label, set_lambdas, push_at_label, set_label_scope, process_lambda_close,
  close_lambda,
}
use buxn.Asm.Literal.{
  parsed, named_padding, process_text, label_padding, read_number, symbol_padding,
  process_raw_number, process_lit_number, emit_text, resolve_padding, process_rel_padding,
  at_padding, process_abs_padding,
}
use buxn.Asm.Number.{number, invalid, Parsed}

Sound-emit_at_ref :
    (token : Token) (type : LabelRefType) (size : LabelRefSize) (is_runic : Bool)
    (l : Option ForwardRef)
    → Sound (emit_at_ref token type size is_runic l)
Sound-emit_at_ref token type size is_runic none = search label_rules
Sound-emit_at_ref token type size is_runic (some l) = search label_rules

Sound-emit_symbol_ref :
    (token : Token) (type : LabelRefType) (size : LabelRefSize) (is_runic : Bool) (s : Symbol)
    (e : Entry)
    → Sound (emit_symbol_ref token type size is_runic s e)
Sound-emit_symbol_ref token type size is_runic s (label id address) = search label_rules
Sound-emit_symbol_ref token type size is_runic s (macro id body expanding) = search label_rules
Sound-emit_symbol_ref token type size is_runic s unknown = search label_rules
Sound-emit_symbol_ref token type size is_runic s (forward_ref id refs) = search label_rules

Sound-emit_named_ref :
    (token : Token) (type : LabelRefType) (size : LabelRefSize) (is_runic : Bool) (name : Text)
    → Sound (emit_named_ref token type size is_runic name)
Sound-emit_named_ref token type size is_runic name =
    search (label_rules, Sound-emit_symbol_ref) depth 8

Sound-emit_full_ref :
    (token : Token) (type : LabelRefType) (size : LabelRefSize) (is_runic : Bool) (name : Text)
    → Sound (emit_full_ref token type size is_runic name)
Sound-emit_full_ref token type size is_runic name =
    search (label_rules, Sound-emit_at_ref, Sound-emit_named_ref) depth 8

pub Sound-emit_label_ref :
    (token : Token) (type : LabelRefType) (size : LabelRefSize) (name : Text) (is_runic : Bool)
    → Sound (emit_label_ref token type size name is_runic)
unfolding emit_label_ref
Sound-emit_label_ref token type size name is_runic =
    search (label_rules, Sound-emit_full_ref) depth 8

pub ruleset ref_rules = (label_rules, Sound-emit_label_ref)

pub Sound-emit_jsi : (token : Token) → Sound (emit_jsi token)
unfolding emit_jsi
Sound-emit_jsi token = search ref_rules depth 8

Sound-set_lambdas : (refs : List ForwardRef) → Sound (set_lambdas refs)
unfolding set_lambdas
Sound-set_lambdas refs = Sound-modify _ λ a. (refl, refl, refl, refl)

Sound-close_lambda : (token : Token) (refs : List ForwardRef) → Sound (close_lambda token refs)
Sound-close_lambda token [] = search ref_rules
Sound-close_lambda token (r ∷ refs) = search (ref_rules, Sound-set_lambdas) depth 16

pub Sound-process_lambda_close : (token : Token) → Sound (process_lambda_close token)
unfolding process_lambda_close
Sound-process_lambda_close token = search (ref_rules, Sound-close_lambda)

Sound-push_at_label :
    (token : Token) (label_id lambda_id : ℕ) → Sound (push_at_label token label_id lambda_id)
unfolding push_at_label
Sound-push_at_label token label_id lambda_id = Sound-modify _ λ a. (refl, refl, refl, refl)

Sound-set_label_scope : (scope : Text) → Sound (set_label_scope scope)
unfolding set_label_scope
Sound-set_label_scope scope = Sound-modify _ λ a. (refl, refl, refl, refl)

pub Sound-process_global_label : (token : Token) → Sound (process_global_label token)
unfolding process_global_label
Sound-process_global_label token =
    search (ref_rules, Sound-push_at_label, Sound-set_label_scope) depth 14

pub Sound-process_local_label : (token : Token) → Sound (process_local_label token)
unfolding process_local_label
Sound-process_local_label token = search ref_rules depth 10

Sound-parsed : (token : Token) (p : Parsed) → Sound (parsed token p)
Sound-parsed token (invalid message) = search ref_rules
Sound-parsed token (number value num_bytes) = search ref_rules

Sound-read_number : (token : Token) (str : Text) → Sound (read_number token str)
unfolding read_number
Sound-read_number token str = Sound-parsed token _

Sound-at_padding : (token : Token) (l : Option ForwardRef) → Sound (at_padding token l)
Sound-at_padding token none = search ref_rules
Sound-at_padding token (some l) = search ref_rules

Sound-label_padding : (token : Token) (s : Symbol) (e : Entry) → Sound (label_padding token s e)
Sound-label_padding token s (label id address) = search ref_rules depth 8
Sound-label_padding token s unknown = search ref_rules
Sound-label_padding token s (macro id body expanding) = search ref_rules
Sound-label_padding token s (forward_ref id refs) = search ref_rules

Sound-symbol_padding : (token : Token) (s : Option Symbol) → Sound (symbol_padding token s)
Sound-symbol_padding token none = search ref_rules
Sound-symbol_padding token (some s) = Sound-label_padding token s s.entry

Sound-named_padding : (token : Token) (name : Text) → Sound (named_padding token name)
Sound-named_padding token name = search (ref_rules, Sound-at_padding, Sound-symbol_padding) depth 8

Sound-resolve_padding : (token : Token) → Sound (resolve_padding token)
unfolding resolve_padding
Sound-resolve_padding token = search (ref_rules, Sound-read_number, Sound-named_padding) depth 10

pub Sound-process_abs_padding : (token : Token) → Sound (process_abs_padding token)
unfolding process_abs_padding
Sound-process_abs_padding token = search (ref_rules, Sound-resolve_padding)

pub Sound-process_rel_padding : (token : Token) → Sound (process_rel_padding token)
unfolding process_rel_padding
Sound-process_rel_padding token = search (ref_rules, Sound-resolve_padding) depth 12

pub Sound-process_lit_number : (token : Token) → Sound (process_lit_number token)
unfolding process_lit_number
Sound-process_lit_number token = search (ref_rules, Sound-read_number) depth 14

pub Sound-process_raw_number : (token : Token) → Sound (process_raw_number token)
unfolding process_raw_number
Sound-process_raw_number token = search (ref_rules, Sound-read_number) depth 14

Sound-emit_text : (token : Token) (addr : ℕ) (s : Text) → Sound (emit_text token addr s)
unfolding emit_text
Sound-emit_text token addr [] = search ref_rules
Sound-emit_text token addr (c ∷ s) =
    search (ref_rules, λ (u : Unit {0}). Sound-emit_text token (addr + 1) s) depth 8

pub Sound-process_text : (token : Token) → Sound (process_text token)
unfolding process_text
Sound-process_text token = search (ref_rules, Sound-emit_text) depth 8

pub ruleset code_rules = (
  ref_rules, Sound-emit_jsi, Sound-process_lambda_close, Sound-process_global_label,
  Sound-process_local_label, Sound-process_abs_padding, Sound-process_rel_padding,
  Sound-process_lit_number, Sound-process_raw_number, Sound-process_text,
)
