-- ===== src/Asm/Evolve/Process.antt =====
-- src/asm/asm.c: the whole assembly changes the program behind the zero page only, reports each
-- failure, and comes back to the depth where it started.
use buxn.Asm.Evolve.Sound.{
  Sound-checked, Sound-error_ex, Sound, Sound-modify, Sound-bind, Sound-gets,
}
use buxn.Asm.Evolve.Lexer.{Good-next_token}
use Prim.Native.String.{String}
use buxn.Prelude.{ℕ, zero, suc, ◌+◌, refl, Option, none, some, arith}
use buxn.Asm.Text.{Text}
use buxn.Asm.Evolve.Ref.{code_rules}
use buxn.Asm.State.{
  Region, Token, AsmUnit, Entry, unknown, macro, label, forward_ref, Symbol, SymType, Act,
}
use buxn.Asm.Macro.{
  comment_next, process_macro, process_mark, create_macro, body_loop, process_comment, head_next,
  put_here, find_open_brace, define_macro, macro_head, comment_loop, body_next, next_macro_id,
}
use buxn.Asm.Nest.{got_argument, explain, no_argument, macro_argument, deeper, in_unit}

pub Sound-put_here :
    (type : SymType) (name : Text) (id : ℕ) (region : Region) → Sound (put_here type name id region)
unfolding put_here
Sound-put_here type name id region = search code_rules depth 8

pub ruleset token_rules = (code_rules, Good-next_token, Sound-put_here)

Sound-comment_next :
    (more : ℕ → Act (Unit {0})) (start : Token) (depth : ℕ) (token : Option Token)
    → ((d : ℕ) → Sound (more d))
    → Sound (comment_next more start depth token)
Sound-comment_next more start depth none h = search token_rules
Sound-comment_next more start depth (some token) h = search (token_rules, h)

Sound-comment_loop : (fuel : ℕ) (start : Token) (depth : ℕ) → Sound (comment_loop fuel start depth)
unfolding comment_loop
Sound-comment_loop zero start zero = search token_rules
Sound-comment_loop (suc fuel) start zero = search token_rules
Sound-comment_loop zero start (suc depth) = search token_rules
Sound-comment_loop (suc fuel) start (suc depth) =
    search (token_rules, Sound-comment_next, Sound-comment_loop fuel start) depth 8

pub Sound-process_comment : (fuel : ℕ) (start : Token) → Sound (process_comment fuel start)
unfolding process_comment
Sound-process_comment fuel start = search (token_rules, Sound-comment_loop) depth 8

pub Sound-process_mark : (token : Token) → Sound (process_mark token)
unfolding process_mark
Sound-process_mark token = search token_rules

pub ruleset mark_rules = (token_rules, Sound-process_comment, Sound-process_mark)

Sound-macro_head :
    (more : Act (Unit {0})) (fuel : ℕ) (token : Token)
    → Sound more
    → Sound (macro_head more fuel token)
Sound-macro_head more fuel token h = search (mark_rules, λ (u : Unit {0}). h) depth 12

Sound-head_next :
    (more : Act (Unit {0})) (fuel : ℕ) (start : Token) (token : Option Token)
    → Sound more
    → Sound (head_next more fuel start token)
Sound-head_next more fuel start none h = search mark_rules
Sound-head_next more fuel start (some token) h = Sound-macro_head more fuel token h

Sound-find_open_brace : (fuel : ℕ) (start : Token) → Sound (find_open_brace fuel start)
unfolding find_open_brace
Sound-find_open_brace zero start = search mark_rules
Sound-find_open_brace (suc fuel) start =
    search (mark_rules, Sound-head_next, λ (u : Unit {0}). Sound-find_open_brace fuel start) depth 8

Sound-body_next :
    (more : ℕ → Act (Unit {0})) (start : Token) (key : Text) (depth : ℕ) (token : Option Token)
    → ((d : ℕ) → Sound (more d))
    → Sound (body_next more start key depth token)
Sound-body_next more start key depth none h = search mark_rules
Sound-body_next more start key depth (some token) h = search (mark_rules, h) depth 8

Sound-body_loop :
    (fuel : ℕ) (start : Token) (key : Text) (depth : ℕ) → Sound (body_loop fuel start key depth)
unfolding body_loop
Sound-body_loop zero start key zero = search mark_rules
Sound-body_loop (suc fuel) start key zero = search mark_rules
Sound-body_loop zero start key (suc depth) = search mark_rules
Sound-body_loop (suc fuel) start key (suc depth) =
    search (mark_rules, Sound-body_next, Sound-body_loop fuel start key) depth 8

Sound-next_macro_id : Sound next_macro_id
unfolding next_macro_id
Sound-next_macro_id =
    Sound-bind _ _ (Sound-modify _ λ a. (refl, refl, refl, refl)) (λ u. Sound-gets _)

Sound-create_macro : (fuel : ℕ) (start : Token) (key : Text) → Sound (create_macro fuel start key)
unfolding create_macro
Sound-create_macro fuel start key =
    search (mark_rules, Sound-next_macro_id, Sound-find_open_brace, Sound-body_loop) depth 14

Sound-define_macro :
    (fuel : ℕ) (start : Token) (s : Symbol) (e : Entry) → Sound (define_macro fuel start s e)
Sound-define_macro fuel start s unknown = Sound-create_macro fuel start s.key
Sound-define_macro fuel start s (forward_ref id refs) = search mark_rules
Sound-define_macro fuel start s (label id address) = search mark_rules
Sound-define_macro fuel start s (macro id body expanding) = search mark_rules

pub Sound-process_macro : (fuel : ℕ) (start : Token) → Sound (process_macro fuel start)
unfolding process_macro
Sound-process_macro fuel start = search (mark_rules, Sound-define_macro) depth 8

module _ {A : Type 0} where
  pub Sound-in_unit : (u : AsmUnit) (m : Act A) → Sound m → Sound (in_unit u m)
  unfolding in_unit
  Sound-in_unit u m h = record {
    good = record {
      evolves = λ a.
          let e = h.good.evolves (record a { current = u }) in
          record {
            zero_page = e.zero_page;
            bytes = e.bytes;
            honest = e.honest;
            sticky = e.sticky;
            depth = e.depth;
          };
    };
    loud = λ a. h.loud (record a { current = u });
  }

  pub Sound-deeper : (m : Act A) → Sound m → Sound (deeper m)
  unfolding deeper
  Sound-deeper m h = record {
    good = record {
      evolves = λ a.
          let e = h.good.evolves (record a { preprocessor_depth = a.preprocessor_depth + 1 }) in
          record {
            zero_page = e.zero_page;
            bytes = e.bytes;
            honest = e.honest;
            sticky = e.sticky;
            depth = omega (arith, e.depth);
          };
    };
    loud = λ a. h.loud (record a { preprocessor_depth = a.preprocessor_depth + 1 });
  }

pub ruleset nest_rules = (mark_rules, Sound-process_macro, Sound-in_unit, Sound-deeper)

Sound-got_argument : (token : Token) (arg : Option Token) → Sound (got_argument token arg)
unfolding no_argument
Sound-got_argument token none = Sound-checked _ (Sound-error_ex _ _ _)
Sound-got_argument token (some arg) = search nest_rules

pub Sound-macro_argument :
    (fuel : ℕ) (token : Token) (key : Text) → Sound (macro_argument fuel token key)
unfolding macro_argument
Sound-macro_argument fuel token key = search (nest_rules, Sound-got_argument) depth 8

pub Sound-explain :
    (token : Token) (message : String) (u : Option (Unit {0})) → Sound (explain token message u)
Sound-explain token message none = search nest_rules
Sound-explain token message (some u) = search nest_rules
