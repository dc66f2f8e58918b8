-- ===== src/Asm/Evolve/Assemble.antt =====
-- src/asm/asm.c: what holds of a whole assembly, whatever the files are and however it ends.
use buxn.Asm.Evolve.Sound.{Sound-checked, Sound, Sound-bind, Sound-pure, Sound-gets, Sound-attempt}
use buxn.Asm.Evolve.Lexer.{Good-next_token}
use buxn.Prelude.{
  AllBytes, ℕ, zero, suc, ◌+◌, ◌<◌, ◌≡◌, refl, not, Option, none, some, List, [], ◌∷◌, arith,
}
use buxn.Asm.Text.{Text}
use buxn.Asm.Evolve.Process.{nest_rules}
use buxn.Asm.State.{
  Token, Input, ForwardRef, Entry, unknown, macro, label, forward_ref, Symbol, DeferredInclude, Act,
}
use buxn.Asm.Resolve.{
  report_open, assemble, process_deferred, report_lambdas, initial, report_symbol, report_symbols,
  resolve, report_at_labels, report_refs, deferred_next,
}
use buxn.Asm.Process.{unit_end, unit_next, process_unit}
use buxn.Asm.Evolve.Whole.{Sound-process_token, Sound-process_file, Sound-process_include}
use buxn.Asm.Evolve.{has_error}

pub Sound-report_lambdas : (refs : List ForwardRef) → Sound (report_lambdas refs)
unfolding report_lambdas
Sound-report_lambdas [] = search nest_rules
Sound-report_lambdas (r ∷ refs) =
    search (nest_rules, λ (u : Unit {0}). Sound-report_lambdas refs) depth 8

pub Sound-report_at_labels : (refs : List ForwardRef) → Sound (report_at_labels refs)
unfolding report_at_labels
Sound-report_at_labels [] = search nest_rules
Sound-report_at_labels (r ∷ refs) =
    search (nest_rules, λ (u : Unit {0}). Sound-report_at_labels refs) depth 8

pub Sound-report_refs : (refs : List ForwardRef) → Sound (report_refs refs)
unfolding report_refs
Sound-report_refs [] = search nest_rules
Sound-report_refs (r ∷ refs) = search (nest_rules, λ (u : Unit {0}). Sound-report_refs refs) depth 8

Sound-report_symbol : (s : Symbol) (e : Entry) → Sound (report_symbol s e)
unfolding report_symbol
Sound-report_symbol s (forward_ref id refs) = Sound-report_refs refs
Sound-report_symbol s unknown = search nest_rules depth 8
Sound-report_symbol s (macro id body expanding) = search nest_rules depth 8
Sound-report_symbol s (label id address) = search nest_rules depth 8

pub Sound-report_symbols : (table : List Symbol) → Sound (report_symbols table)
unfolding report_symbols
Sound-report_symbols [] = search nest_rules
Sound-report_symbols (s ∷ table) =
    search (nest_rules, Sound-report_symbol, λ (u : Unit {0}). Sound-report_symbols table) depth 8

Sound-unit_end : Sound unit_end
unfolding unit_end
Sound-unit_end = Sound-checked _ (Sound-pure tt)

Sound-unit_next :
    (process : Token → Act (Unit {0})) (more : Act (Unit {0})) (token : Option Token)
    → ((t : Token) → Sound (process t))
    → Sound more
    → Sound (unit_next process more token)
Sound-unit_next process more none h k = Sound-unit_end
Sound-unit_next process more (some token) h k = Sound-bind _ _ (h token) (λ u. k)

Sound-report_open : Sound report_open
unfolding report_open
Sound-report_open =
    search
      (
        nest_rules,
        Sound-report_lambdas,
        Sound-report_at_labels,
        Sound-report_symbols,
        λ (u : Unit {0}). Sound-unit_end,
      )
      depth 14

module _ (fopen : Text → Option (List Input)) where
  Sound-process_unit : (fuel : ℕ) → Sound (process_unit fopen fuel)
  unfolding process_unit
  Sound-process_unit zero = search nest_rules
  Sound-process_unit (suc fuel) =
      let ih = Sound-process_unit fuel in
      Sound-bind _ _ (Sound-attempt _ (Good-next_token fuel))
        λ token. Sound-unit_next _ _ token (λ t. Sound-process_token fopen _ ih fuel t) ih

  Sound-deferred_next :
      (fuel : ℕ) (more : Act (Unit {0})) (d : Option DeferredInclude)
      → Sound more
      → Sound (deferred_next fopen fuel more d)
  Sound-deferred_next fuel more none h = search nest_rules
  Sound-deferred_next fuel more (some d) h =
      Sound-bind _ _ (Sound-process_include fopen _ (Sound-process_unit fuel) _ _) (λ u. h)

  Sound-process_deferred :
      (fuel rounds index : ℕ) → Sound (process_deferred fopen fuel rounds index)
  unfolding process_deferred
  Sound-process_deferred fuel zero index = search nest_rules
  Sound-process_deferred fuel (suc rounds) index =
      Sound-bind _ _ (Sound-gets _)
        λ d. Sound-deferred_next fuel _ d (Sound-process_deferred fuel rounds (index + 1))

  Sound-resolve : (fuel : ℕ) → Sound (resolve fopen fuel)
  unfolding resolve
  Sound-resolve fuel = Sound-bind _ _ (Sound-process_deferred fuel fuel 0) (λ u. Sound-report_open)

  pub Sound-assemble : (fuel : ℕ) (filename : Text) → Sound (assemble fopen fuel filename)
  unfolding assemble
  Sound-assemble fuel filename =
      Sound-bind _ _ (Sound-process_file fopen _ (Sound-process_unit fuel) filename)
        (λ u. Sound-resolve fuel)

  -- Whatever the files hold and however the assembly ends, it writes no byte below 0x0100, and
  -- every byte that it has written is below 256.
  pub assemble-zero_page :
      (fuel : ℕ) (filename : Text)
      → let b = (assemble fopen fuel filename initial).1 in
        ((i : ℕ) → i < 256 → b.rom i ≡ 0) × AllBytes b.rom
  unfolding initial
  assemble-zero_page fuel filename =
      let e = (Sound-assemble fuel filename).good.evolves initial in
      (e.zero_page, e.bytes (λ i. omega arith))

  -- Whatever the files hold and however the assembly ends, its result is true exactly if no error
  -- has been reported, and the preprocessor is back at depth 0.
  pub assemble-honest :
      (fuel : ℕ) (filename : Text)
      → let b = (assemble fopen fuel filename initial).1 in
        (b.success ≡ not (has_error b.reports)) × (b.preprocessor_depth ≡ 0)
  unfolding initial
  assemble-honest fuel filename =
      let e = (Sound-assemble fuel filename).good.evolves initial in (e.honest refl, e.depth)
