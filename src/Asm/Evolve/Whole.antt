-- ===== src/Asm/Evolve/Whole.antt =====
-- src/asm/asm.c: what holds of the whole assembly.
use buxn.Asm.Evolve.Sound.{Sound, Sound-modify}
use buxn.Prelude.{ℕ, refl, Bool, true, false, Option, none, some, List}
use buxn.Asm.Text.{Text}
use buxn.Asm.Evolve.Process.{nest_rules, Sound-macro_argument, Sound-explain}
use buxn.Asm.State.{Token, Input, Entry, unknown, macro, label, forward_ref, Symbol, Act}
use buxn.Asm.Process.{process_code, process_tilde, process_token}
use buxn.Asm.Nest.{
  word_as, expand_body, process_include, defer_include, expand_macro, add_include, process_file,
  include_new, symbol_word, process_word, process_opened,
}
use buxn.Asm.Opcode.{OpcodeResult}

module _ (run : Act (Unit {0})) (h : Sound run) where
  Sound-expand_body :
      (key : Text) (body : List Token) (argument : Text) → Sound (expand_body run key body argument)
  unfolding expand_body
  Sound-expand_body key body argument = search nest_rules depth 10

  Sound-expand_macro :
      (fuel : ℕ) (token : Token) (key : Text) (id : ℕ) (body : List Token) (expanding : Bool)
      → Sound (expand_macro run fuel token key id body expanding)
  unfolding expand_macro
  Sound-expand_macro fuel token key id body expanding =
      search (nest_rules, Sound-macro_argument, Sound-explain, Sound-expand_body) depth 14

  Sound-symbol_word :
      (fuel : ℕ) (token : Token) (s : Symbol) (e : Entry) → Sound (symbol_word run fuel token s e)
  Sound-symbol_word fuel token s (macro id body expanding) =
      search (nest_rules, Sound-expand_macro) depth 8
  Sound-symbol_word fuel token s (label id address) = search nest_rules depth 8
  Sound-symbol_word fuel token s unknown = search nest_rules depth 8
  Sound-symbol_word fuel token s (forward_ref id refs) = search nest_rules depth 8

  Sound-word_as :
      (fuel : ℕ) (token : Token) (r : Option OpcodeResult) → Sound (word_as run fuel token r)
  Sound-word_as fuel token (some r) = search nest_rules depth 8
  Sound-word_as fuel token none = search (nest_rules, Sound-symbol_word) depth 8

  Sound-process_word : (fuel : ℕ) (token : Token) → Sound (process_word run fuel token)
  unfolding process_word
  Sound-process_word fuel token = Sound-word_as fuel token _

Sound-add_include : (name : Text) → Sound (add_include name)
unfolding add_include
Sound-add_include name = Sound-modify _ λ a. (refl, refl, refl, refl)

module _ (fopen : Text → Option (List Input)) (run : Act (Unit {0})) (h : Sound run) where
  Sound-process_opened :
      (path : Text) (file : Option (List Input)) → Sound (process_opened fopen run path file)
  Sound-process_opened path none = search nest_rules
  Sound-process_opened path (some file) = search nest_rules

  pub Sound-process_file : (path : Text) → Sound (process_file fopen run path)
  unfolding process_file
  Sound-process_file path = Sound-process_opened path _

  Sound-include_new :
      (name : Text) (token : Token) (b : Bool) → Sound (include_new fopen run name token b)
  Sound-include_new name token true = search nest_rules
  Sound-include_new name token false =
      search (nest_rules, Sound-add_include, Sound-process_file, Sound-explain) depth 10

  pub Sound-process_include :
      (name : Text) (token : Token) → Sound (process_include fopen run name token)
  unfolding process_include
  Sound-process_include name token = search (nest_rules, Sound-include_new)

  Sound-defer_include : (name : Text) (token : Token) → Sound (defer_include fopen run name token)
  unfolding defer_include
  Sound-defer_include name token = Sound-modify _ λ a. (refl, refl, refl, refl)

  Sound-process_tilde : (token : Token) → Sound (process_tilde fopen run token)
  unfolding process_tilde
  Sound-process_tilde token =
      search (nest_rules, Sound-process_include, Sound-defer_include) depth 12

  Sound-process_code :
      (fuel : ℕ) (token : Token) (c : ℕ) → Sound (process_code fopen run fuel token c)
  unfolding process_code
  Sound-process_code fuel token c = search (nest_rules, Sound-process_word run h) depth 24

  pub Sound-process_token : (fuel : ℕ) (token : Token) → Sound (process_token fopen run fuel token)
  unfolding process_token
  Sound-process_token fuel token =
      search (nest_rules, Sound-process_tilde, Sound-process_code) depth 16
