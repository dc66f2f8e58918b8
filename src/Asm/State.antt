-- ===== src/Asm/State.antt =====
-- src/asm/asm.c: the data of the assembler and its state, with what it tells its host (asm.h).
use buxn.Prelude.{if◌then◌else◌, ℕ, Bool, List, Option, none, some, Bytes}
use buxn.Asm.Text.{Text}
use Prim.Native.String.{String}

-- `buxn_asm_file_pos_t`
pub record FilePos : Type 0 where
  pub line : ℕ
  pub col : ℕ
  pub byte : ℕ

-- `buxn_asm_source_region_t`, with the two ends of its range.
pub record Region : Type 0 where
  pub filename : Text
  pub start : FilePos
  pub stop : FilePos

pub record Token : Type 0 where
  pub lexeme : Text
  pub region : Region

-- What `fgetc` gives: a character, the end of the file, or an I/O error.
pub data Input : Type 0 where
  char : ℕ → Input
  io_eof io_error : Input

-- `buxn_asm_unit_t`. A file holds what is left to read; a macro holds the tokens from the current
-- one, and the lexeme of its argument, which is empty without one.
pub data AsmUnit : Type 0 where
  file_unit : (file : List Input) (path : Text) (pos : FilePos) → AsmUnit
  macro_unit : (current : List Token) (argument : Text) → AsmUnit

pub data LabelRefType : Type 0 where
  ref_zero ref_abs ref_rel : LabelRefType

pub data LabelRefSize : Type 0 where
  ref_byte ref_short : LabelRefSize

-- `buxn_asm_forward_ref_t`, also a lambda and a @-label.
pub record ForwardRef : Type 0 where
  pub token : Token
  pub label_id : ℕ
  pub lambda_id : ℕ
  pub addr : ℕ
  pub type : LabelRefType
  pub size : LabelRefSize

-- `buxn_asm_symtab_entry_type_t` with the union behind it.
pub data Entry : Type 0 where
  unknown : Entry
  macro : (id : ℕ) (body : List Token) (expanding : Bool) → Entry
  label : (id address : ℕ) → Entry
  forward_ref : (id : ℕ) (refs : List ForwardRef) → Entry

pub record Symbol : Type 0 where
  pub key : Text
  pub defining_token : Token
  pub referenced : Bool
  pub entry : Entry

pub data SymType : Type 0 where
  sym_macro sym_macro_ref sym_include sym_comment sym_mark sym_label sym_label_ref : SymType
  sym_opcode sym_number sym_text : SymType

pub record Sym : Type 0 where
  pub type : SymType
  pub name_is_generated : Bool
  pub id : ℕ
  pub name : Option Text
  pub region : Region

pub data ReportType : Type 0 where
  report_error report_warning : ReportType

-- `buxn_asm_report_t` without the lexeme, which points into a buffer that is in use again.
pub record Report : Type 0 where
  pub type : ReportType
  pub message : String
  pub region : Region
  pub related : Option (String × Region)

pub record DeferredInclude : Type 0 where
  pub included_filename : Text
  pub triggering_token : Token

-- `buxn_asm_t`. The symbols, the includes and the deferred includes are in the order in which they
-- were made; lambdas and @-labels have the latest first. What the host has been told is kept with
-- it: the bytes of the ROM, and the symbols and the reports, the latest first.
pub record Asm : Type 0 where
  pub write_addr : ℕ
  pub preprocessor_depth : ℕ
  pub read_buf : Option Input
  pub success : Bool
  pub num_labels : ℕ
  pub num_lambdas : ℕ
  pub num_macros : ℕ
  pub includes : List Text
  pub symtab : List Symbol
  pub label_scope : Text
  pub lambdas : List ForwardRef
  pub at_labels : List ForwardRef
  pub deferred_includes : List DeferredInclude
  pub current : AsmUnit
  pub rom : Bytes
  pub symbols : List (ℕ × Sym)
  pub reports : List Report

-- A call returns a value, returns false (or no value), or needs more fuel than it was given.
pub data Outcome (A : Type 0) : Type 0 where
  done : A → Outcome A
  failed stuck : Outcome A

abbrev pub Act : Type 0 → Type 0
Act A = Asm → Outcome A × Asm

-- What follows a call: nothing, where it returned false.
abbrev pub followed : {A B : Type 0} → Outcome A × Asm → (A → Act B) → Outcome B × Asm
followed (done x, b) f = f x b
followed (failed, b) f = (failed, b)
followed (stuck, b) f = (stuck, b)

infixl 5 ◌>>=◌ ◌>>◌
unfoldable pub ◌>>=◌ : {A B : Type 0} → Act A → (A → Act B) → Act B
◌>>=◌ m f a = followed (m a) f

abbrev pub ◌>>◌ : {A B : Type 0} → Act A → Act B → Act B
m >> n = m >>= λ _. n

unfoldable pub pure : {A : Type 0} → A → Act A
pure x a = (done x, a)

unfoldable pub fail : {A : Type 0} → Act A
fail a = (failed, a)

-- Out of fuel.
unfoldable pub starve : {A : Type 0} → Act A
starve a = (stuck, a)

unfoldable pub gets : {A : Type 0} → (Asm → A) → Act A
gets f a = (done (f a), a)

unfoldable pub modify : (Asm → Asm) → Act (Unit {0})
modify f a = (done tt, f a)

-- A call whose failure the caller looks at.
abbrev pub caught : {A : Type 0} → Outcome A × Asm → Outcome (Option A) × Asm
caught (done x, b) = (done (some x), b)
caught (failed, b) = (done none, b)
caught (stuck, b) = (stuck, b)

unfoldable pub attempt : {A : Type 0} → Act A → Act (Option A)
attempt m a = caught (m a)

abbrev pub when : Bool → Act (Unit {0}) → Act (Unit {0})
when c m = if c then m else pure tt
