-- ===== src/Asm/Evolve.antt =====
-- src/asm/asm.c: what every call of the assembler leaves as it is, or keeps true.
pub mod Lexer
pub mod Sound
pub mod Emit
pub mod Label
pub mod Ref
pub mod Process
pub mod Whole
pub mod Assemble
use Prim.Native.String.{String}
use buxn.Prelude.{
  AllBytes, ℕ, zero, suc, ◌+◌, ◌-◌, ◌*◌, ◌/◌, ◌%◌, ◌^◌, ◌≤◌, ◌<◌, ◌≡◌, refl, sym, ap, ◌∙◌, Bool,
  true, false, not, ◌&&◌, ◌||◌, Option, none, some, List, [], ◌∷◌, ◌++◌, arith, ltb, leb, ◌==◌,
  if◌then◌else◌, Bool-cases, Option-cases, inl, inr, u8, u16, Bytes, update, length,
}
use buxn.Asm.Text.{
  Text, text_eq, is_only, is_runic, is_digit, is_hex_letter, is_uppercased, is_sep, is_number,
  skip_plus, str_pop_front,
}
use buxn.Asm.State.{
  caught, FilePos, Region, Token, Input, char, io_eof, io_error, AsmUnit, file_unit, macro_unit,
  LabelRefType, ref_zero, ref_abs, ref_rel, LabelRefSize, ref_byte, ref_short, ForwardRef, Entry,
  unknown, macro, label, forward_ref, Symbol, SymType, sym_macro, sym_macro_ref, sym_include,
  sym_comment, sym_mark, sym_label, sym_label_ref, sym_opcode, sym_number, sym_text, Sym,
  ReportType, report_error, report_warning, Report, DeferredInclude, Asm, Outcome, done, failed,
  stuck, Act, followed, ◌>>=◌, ◌>>◌, pure, fail, starve, gets, modify, attempt, when,
}
use buxn.Asm.Report.{
  report, set_failed, error_ex, error, error2, warning, no_pos, file_region, put_symbol,
  put_symbol2,
}

-- Whether an error is among the reports.
abbrev pub has_error : List Report → Bool
has_error [] = false
has_error (r ∷ rs) = elim r.type [ report_error ↦ true | report_warning ↦ has_error rs ]

-- It is recorded that the assembly fails exactly if an error has been reported.
abbrev Honest : Asm → Type 0
Honest a = a.success ≡ not (has_error a.reports)

pub record Evolves (a b : Asm) : Type 0 where
  pub zero_page : (i : ℕ) → i < 256 → b.rom i ≡ a.rom i
  pub bytes : AllBytes a.rom → AllBytes b.rom
  pub honest : Honest a → Honest b
  pub sticky : a.success ≡ false → b.success ≡ false
  pub depth : b.preprocessor_depth ≡ a.preprocessor_depth

-- Whatever the call returns.
pub record Good {A : Type 0} (m : Act A) : Type 0 where
  pub evolves : (a : Asm) → Evolves a (m a).1

Evolves-refl : (a : Asm) → Evolves a a
Evolves-refl a = record {
  zero_page = λ i h. refl;
  bytes = λ h. h;
  honest = λ h. h;
  sticky = λ h. h;
  depth = refl;
}

Evolves-trans : (a b c : Asm) → Evolves a b → Evolves b c → Evolves a c
Evolves-trans a b c p q = record {
  zero_page = λ i h. q.zero_page i h ∙ p.zero_page i h;
  bytes = λ h. q.bytes (p.bytes h);
  honest = λ h. q.honest (p.honest h);
  sticky = λ h. q.sticky (p.sticky h);
  depth = q.depth ∙ p.depth;
}

-- A change of other fields.
abbrev pub Apart : (Asm → Asm) → Type 0
Apart f =
    (a : Asm)
    → ((f a).rom ≡ a.rom)
      × ((f a).success ≡ a.success)
      × ((f a).reports ≡ a.reports)
      × ((f a).preprocessor_depth ≡ a.preprocessor_depth)

pub Good-modify : (f : Asm → Asm) → Apart f → Good (modify f)
unfolding modify
Good-modify f h = record {
  evolves = λ a. record {
    zero_page = λ i lt. ap (λ (t : Bytes). t i) (h a).0;
    bytes = λ all. rw (h a).0 all;
    honest = λ e. (h a).1 ∙ e ∙ ap (λ t. not (has_error t)) (sym (h a).2);
    sticky = λ e. (h a).1 ∙ e;
    depth = (h a).3;
  };
}

module _ {A : Type 0} where
  pub Good-pure : (x : A) → Good (pure x)
  unfolding pure
  Good-pure x = record { evolves = λ a. Evolves-refl a }

  pub Good-fail : Good (fail {A = A})
  unfolding fail
  Good-fail = record { evolves = λ a. Evolves-refl a }

  pub Good-starve : Good (starve {A = A})
  unfolding starve
  Good-starve = record { evolves = λ a. Evolves-refl a }

  pub Good-gets : (f : Asm → A) → Good (gets f)
  unfolding gets
  Good-gets f = record { evolves = λ a. Evolves-refl a }

  pub Good-if : (b : Bool) (m n : Act A) → Good m → Good n → Good (if b then m else n)
  Good-if true m n p q = p
  Good-if false m n p q = q

  caught-state : (r : Outcome A × Asm) → (caught r).1 ≡ r.1
  caught-state (done x, b) = refl
  caught-state (failed, b) = refl
  caught-state (stuck, b) = refl

  pub Good-attempt : (m : Act A) → Good m → Good (attempt m)
  unfolding attempt
  Good-attempt m p = record { evolves = λ a. rw (caught-state (m a)) (p.evolves a) }

module _ {A B : Type 0} (f : A → Act B) (q : (x : A) → Good (f x)) where
  followed-Evolves : (a : Asm) (r : Outcome A × Asm) → Evolves a r.1 → Evolves a (followed r f).1
  followed-Evolves a (done x, b) p = Evolves-trans a b (f x b).1 p ((q x).evolves b)
  followed-Evolves a (failed, b) p = p
  followed-Evolves a (stuck, b) p = p

pub Good-bind :
    {A B : Type 0} (m : Act A) (f : A → Act B) → Good m → ((x : A) → Good (f x)) → Good (m >>= f)
unfolding ◌>>=◌
Good-bind m f p q = record { evolves = λ a. followed-Evolves f q a (m a) (p.evolves a) }

pub ruleset good_rules =
    (Good-bind, Good-pure, Good-fail, Good-starve, Good-gets, Good-if, Good-attempt)
