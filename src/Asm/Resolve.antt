-- ===== src/Asm/Resolve.antt =====
-- src/asm/asm.c: what is left at the end, and the assembly of a file.
use buxn.Prelude.{
  ℕ, zero, suc, ◌+◌, Bool, true, false, not, ◌&&◌, Option, none, some, List, [], ◌∷◌, ◌==◌,
}
use buxn.Asm.Text.{Text, is_uppercased}
use buxn.Asm.State.{
  Input, macro_unit, ForwardRef, Entry, unknown, macro, label, forward_ref, Symbol, DeferredInclude,
  Asm, Act, ◌>>=◌, ◌>>◌, pure, starve, gets, attempt, when,
}
use buxn.Asm.Report.{error_ex, error, warning}
use buxn.Asm.Nest.{process_include, process_file}
use buxn.Asm.Emit.{asm_reset_vector}
use buxn.Asm.Process.{process_unit, unit_end}
use buxn.Asm.Symbols.{default_label_scope}

unfoldable pub report_lambdas : List ForwardRef → Act (Unit {0})
report_lambdas [] = pure tt
report_lambdas (r ∷ refs) = do
  reported ← attempt (error_ex {A = Unit {0}} "Unbalanced lambda" r.token.region none)
  report_lambdas refs

unfoldable pub report_at_labels : List ForwardRef → Act (Unit {0})
report_at_labels [] = pure tt
report_at_labels (r ∷ refs) = warning r.token "Unreferenced @-label" >> report_at_labels refs

unfoldable pub report_refs : List ForwardRef → Act (Unit {0})
report_refs [] = pure tt
report_refs (r ∷ refs) = do
  reported ← attempt (error {A = Unit {0}} r.token "Could not resolve reference")
  report_refs refs

abbrev at_reset : Entry → Bool
at_reset (label id address) = address == asm_reset_vector
at_reset e = false

abbrev starts_uppercased : Text → Bool
starts_uppercased [] = false
starts_uppercased (c ∷ s) = is_uppercased c

abbrev pub unused : Symbol → Bool
unused s = not s.referenced && not (starts_uppercased s.key) && not (at_reset s.entry)

unfoldable pub report_symbol : Symbol → Entry → Act (Unit {0})
unfolding report_refs is_uppercased
report_symbol s (forward_ref id refs) = report_refs refs
report_symbol s unknown =
    attempt (error {A = Unit {0}} s.defining_token "Internal error: Unknown symbol") >> pure tt
report_symbol s (macro id body expanding) =
    when (unused s) (warning s.defining_token "Unreferenced symbol")
report_symbol s (label id address) =
    when (unused s) (warning s.defining_token "Unreferenced symbol")

unfoldable pub report_symbols : List Symbol → Act (Unit {0})
unfolding report_symbol
report_symbols [] = pure tt
report_symbols (s ∷ table) = report_symbol s s.entry >> report_symbols table

abbrev nth : ℕ → List DeferredInclude → Option DeferredInclude
nth n [] = none
nth zero (d ∷ ds) = some d
nth (suc n) (d ∷ ds) = nth n ds

-- What is left open, and whether the assembly has succeeded.
unfoldable pub report_open : Act (Unit {0})
unfolding report_lambdas report_at_labels report_symbols unit_end
report_open = do
  lambdas ← gets λ a. a.lambdas
  report_lambdas lambdas
  at_labels ← gets λ a. a.at_labels
  report_at_labels at_labels
  symtab ← gets λ a. a.symtab
  report_symbols symtab
  unit_end

unfoldable pub initial : Asm
initial = record {
  write_addr = asm_reset_vector;
  preprocessor_depth = 0;
  read_buf = none;
  success = true;
  num_labels = 0;
  num_lambdas = 0;
  num_macros = 0;
  includes = [];
  symtab = [];
  label_scope = default_label_scope;
  lambdas = [];
  at_labels = [];
  deferred_includes = [];
  current = macro_unit [] [];
  rom = λ i. 0;
  symbols = [];
  reports = [];
}

module _ (fopen : Text → Option (List Input)) (fuel : ℕ) where
  abbrev pub deferred_next : Act (Unit {0}) → Option DeferredInclude → Act (Unit {0})
  deferred_next more none = pure tt
  deferred_next more (some d) =
      process_include fopen (process_unit fopen fuel) d.included_filename d.triggering_token >> more

  -- The deferred includes from an index. One that is included may defer more, which follow.
  unfoldable pub process_deferred : (rounds : ℕ) → (index : ℕ) → Act (Unit {0})
  unfolding process_include process_unit
  process_deferred zero index = starve
  process_deferred (suc rounds) index =
      let more = process_deferred rounds (index + 1) in
      gets (λ a. nth index a.deferred_includes) >>= deferred_next more

  unfoldable pub resolve : Act (Unit {0})
  unfolding process_deferred report_open
  resolve = process_deferred fuel 0 >> report_open

  -- `buxn_asm`: the result is `success` of the state that it leaves.
  unfoldable pub assemble : Text → Act (Unit {0})
  unfolding process_file process_unit resolve
  assemble filename = process_file fopen (process_unit fopen fuel) filename >> resolve
