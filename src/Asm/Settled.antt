-- ===== src/Asm/Settled.antt =====
-- src/asm/asm.c: a successful assembly leaves nothing unresolved.
use Prim.Native.String.{String}
use buxn.Prelude.{
  ◌≢◌, ◌⊎◌, ℕ, ◌≡◌, refl, sym, ap, ◌∙◌, Bool, true, false, Option, none, List, [], ◌∷◌, arith,
  if◌then◌else◌, Bool-cases, inl, inr,
}
use buxn.Asm.Text.{Text}
use buxn.Asm.Evolve.{Good, Good-pure}
use buxn.Asm.Evolve.Assemble.{
  Sound-report_lambdas, Sound-report_at_labels, Sound-report_symbols, Sound-report_refs,
  Sound-assemble,
}
use buxn.Asm.State.{
  Region, Token, Input, ForwardRef, Entry, unknown, macro, label, forward_ref, Symbol, Asm, Outcome,
  done, failed, stuck, Act, followed, ◌>>=◌, pure, fail, gets, modify, attempt,
}
use buxn.Asm.Report.{report, set_failed, error_ex, warning}
use buxn.Asm.Resolve.{
  initial, process_deferred, assemble, resolve, report_open, report_refs, report_symbol,
  report_symbols, report_at_labels, report_lambdas,
}
use buxn.Asm.Process.{process_unit, unit_end}
use buxn.Asm.Nest.{process_file}

-- A symbol that is a macro or a label, or has no reference waiting for it.
abbrev settled : Entry → Bool
settled unknown = false
settled (macro id body expanding) = true
settled (label id address) = true
settled (forward_ref id []) = true
settled (forward_ref id (r ∷ refs)) = false

abbrev pub AllSettled : List Symbol → Type 0
AllSettled [] = Unit {0}
AllSettled (s ∷ table) = (settled s.entry ≡ true) × AllSettled table

-- The call only reports: it succeeds, and leaves the symbols and the lambdas as they are.
pub record Tells (m : Act (Unit {0})) : Type 0 where
  pub tells :
      (a : Asm) → ((m a).0 ≡ done tt) × ((m a).1.symtab ≡ a.symtab) × ((m a).1.lambdas ≡ a.lambdas)

Tells-pure : (u : Unit {0}) → Tells (pure u)
unfolding pure
Tells-pure u = record { tells = λ a. (refl, refl, refl) }

Tells-warning : (token : Token) (message : String) → Tells (warning token message)
unfolding warning report modify
Tells-warning token message = record { tells = λ a. (refl, refl, refl) }

Tells-if : (b : Bool) (m n : Act (Unit {0})) → Tells m → Tells n → Tells (if b then m else n)
Tells-if true m n p q = p
Tells-if false m n p q = q

followed-Tells :
    (a : Asm) (r : Outcome (Unit {0}) × Asm) (n : Act (Unit {0}))
    → (r.0 ≡ done tt) × (r.1.symtab ≡ a.symtab) × (r.1.lambdas ≡ a.lambdas)
    → Tells n
    → ((followed r (λ u. n)).0 ≡ done tt)
      × ((followed r (λ u. n)).1.symtab ≡ a.symtab)
      × ((followed r (λ u. n)).1.lambdas ≡ a.lambdas)
followed-Tells a (done u, b) n h k = let e = k.tells b in (e.0, e.1 ∙ h.1, e.2 ∙ h.2)
followed-Tells a (failed, b) n h k = absurd (ground (arith, h.0))
followed-Tells a (stuck, b) n h k = absurd (ground (arith, h.0))

Tells-bind : (m n : Act (Unit {0})) → Tells m → Tells n → Tells (m >>= λ u. n)
unfolding ◌>>=◌
Tells-bind m n p q = record { tells = λ a. followed-Tells a (m a) n (p.tells a) q }

Tells-attempt :
    (message : String) (region : Region) (related : Option (String × Region)) (n : Act (Unit {0}))
    → Tells n
    → Tells (attempt (error_ex {A = Unit {0}} message region related) >>= λ u. n)
unfolding ◌>>=◌ attempt error_ex set_failed report modify fail
Tells-attempt message region related n p = record { tells = λ a. p.tells _ }

Tells-report_lambdas : (refs : List ForwardRef) → Tells (report_lambdas refs)
unfolding report_lambdas
Tells-report_lambdas [] = Tells-pure _
Tells-report_lambdas (r ∷ refs) = Tells-attempt _ _ _ _ (Tells-report_lambdas refs)

Tells-report_at_labels : (refs : List ForwardRef) → Tells (report_at_labels refs)
unfolding report_at_labels
Tells-report_at_labels [] = Tells-pure _
Tells-report_at_labels (r ∷ refs) = Tells-bind _ _ (Tells-warning _ _) (Tells-report_at_labels refs)

Tells-report_refs : (refs : List ForwardRef) → Tells (report_refs refs)
unfolding report_refs
Tells-report_refs [] = Tells-pure _
Tells-report_refs (r ∷ refs) = Tells-attempt _ _ _ _ (Tells-report_refs refs)

Tells-report_symbol : (s : Symbol) (e : Entry) → Tells (report_symbol s e)
unfolding report_symbol
Tells-report_symbol s (forward_ref id refs) = Tells-report_refs refs
Tells-report_symbol s unknown = Tells-attempt _ _ _ _ (Tells-pure tt)
Tells-report_symbol s (macro id body expanding) = Tells-if _ _ _ (Tells-warning _ _) (Tells-pure _)
Tells-report_symbol s (label id address) = Tells-if _ _ _ (Tells-warning _ _) (Tells-pure _)

Tells-report_symbols : (table : List Symbol) → Tells (report_symbols table)
unfolding report_symbols
Tells-report_symbols [] = Tells-pure _
Tells-report_symbols (s ∷ table) =
    Tells-bind _ _ (Tells-report_symbol s s.entry) (Tells-report_symbols table)

-- Where a state came by a report, the rest of the loop keeps the failure.
attempt-Fails :
    (message : String) (region : Region) (related : Option (String × Region)) (n : Act (Unit {0}))
    (a : Asm)
    → Good n
    → ((attempt (error_ex {A = Unit {0}} message region related) >>= λ u. n) a).1.success ≡ false
unfolding ◌>>=◌ attempt error_ex set_failed report modify fail
attempt-Fails message region related n a h = (h.evolves _).sticky refl

followed-success :
    (r : Outcome (Unit {0}) × Asm) (n : Act (Unit {0}))
    → Good n
    → r.0 ≡ done tt
    → (followed r (λ u. n)).1.success ≡ true
    → r.1.success ≡ true
followed-success (done u, b) n h e t = ground (arith, (h.evolves b).sticky)
followed-success (failed, b) n h e t = t
followed-success (stuck, b) n h e t = t

report_lambdas-success :
    (refs : List ForwardRef) (a : Asm) → (report_lambdas refs a).1.success ≡ true → refs ≡ []
unfolding report_lambdas
report_lambdas-success [] a h = refl
report_lambdas-success (r ∷ refs) a h =
    let e =
      attempt-Fails "Unbalanced lambda" r.token.region none (report_lambdas refs) a
        (Sound-report_lambdas refs).good in
    absurd (ground (arith, e, h))

report_symbol-success :
    (s : Symbol) (e : Entry) (a : Asm) → (report_symbol s e a).1.success ≡ true → settled e ≡ true
unfolding report_symbol report_refs
report_symbol-success s unknown a h =
    let e =
      attempt-Fails "Internal error: Unknown symbol" s.defining_token.region none (pure tt) a
        (Good-pure tt) in
    absurd (ground (arith, e, h))
report_symbol-success s (macro id body expanding) a h = refl
report_symbol-success s (label id address) a h = refl
report_symbol-success s (forward_ref id []) a h = refl
report_symbol-success s (forward_ref id (r ∷ refs)) a h =
    let e =
      attempt-Fails "Could not resolve reference" r.token.region none (report_refs refs) a
        (Sound-report_refs refs).good in
    absurd (ground (arith, e, h))

followed-done :
    {A : Type 0} (r : Outcome (Unit {0}) × Asm) (n : Act A)
    → r.0 ≡ done tt
    → followed r (λ u. n) ≡ n r.1
followed-done (done u, b) n h = refl
followed-done (failed, b) n h = absurd (ground (arith, h))
followed-done (stuck, b) n h = absurd (ground (arith, h))

report_symbols-success :
    (table : List Symbol) (a : Asm) → (report_symbols table a).1.success ≡ true → AllSettled table
unfolding report_symbols ◌>>=◌
report_symbols-success [] a h = tt
report_symbols-success (s ∷ table) a h =
    let t = (Tells-report_symbol s s.entry).tells a in
    let first =
      followed-success (report_symbol s s.entry a) (report_symbols table)
        (Sound-report_symbols table).good t.0 h in
    (
      report_symbol-success s s.entry a first,
      report_symbols-success table (report_symbol s s.entry a).1 (
          ap (λ r. r.1.success)
            (sym (followed-done (report_symbol s s.entry a) (report_symbols table) t.0))
          ∙ h),
    )

-- The state that the reports leave has no open lambda and no unresolved symbol.
abbrev pub Settled : Asm → Type 0
Settled b = (b.success ≡ true) × (b.lambdas ≡ []) × AllSettled b.symtab

unit_end-done : (a : Asm) → (unit_end a).0 ≡ done tt → (a.success ≡ true) × ((unit_end a).1 ≡ a)
unfolding unit_end ◌>>=◌ gets pure fail
unit_end-done a h = elim (Bool-cases a.success) [
  | inl e ↦ (e, rw e refl)
  | inr e ↦ absurd (ground (arith, h, e))
]

report_open-Settled : (a : Asm) → (report_open a).0 ≡ done tt → Settled (report_open a).1
unfolding report_open ◌>>=◌ gets
report_open-Settled a h =
    let b = (report_lambdas a.lambdas a).1 in
    let c = (report_at_labels b.at_labels b).1 in
    let d = (report_symbols c.symtab c).1 in
    let tb = (Tells-report_lambdas a.lambdas).tells a in
    let tc = (Tells-report_at_labels b.at_labels).tells b in
    let td = (Tells-report_symbols c.symtab).tells c in
    let e : report_open a ≡ unit_end d =
      followed-done _ _ tb.0 ∙ followed-done _ _ tc.0 ∙ followed-done _ _ td.0 in
    let end = unit_end-done d (sym (ap (λ r. r.0) e) ∙ h) in
    let left : a.lambdas ≡ [] = elim (Bool-cases b.success) [
      | inl yes_b ↦ report_lambdas-success a.lambdas a yes_b
      | inr no_b ↦
          let no_c = ((Sound-report_at_labels b.at_labels).good.evolves b).sticky no_b in
          let no_d = ((Sound-report_symbols c.symtab).good.evolves c).sticky no_c in
          absurd (ground (arith, no_d, end.0))
    ] in
    let f : (report_open a).1 ≡ d = ap (λ r. r.1) e ∙ end.1 in
    rw f (end.0, td.2 ∙ tc.2 ∙ tb.2 ∙ left, rw td.1 (report_symbols-success c.symtab c end.0))

followed-Settled :
    (r : Outcome (Unit {0}) × Asm)
    → (followed r (λ u. report_open)).0 ≡ done tt
    → Settled (followed r (λ u. report_open)).1
followed-Settled (done u, b) h = report_open-Settled b h
followed-Settled (failed, b) h = absurd (ground (arith, h))
followed-Settled (stuck, b) h = absurd (ground (arith, h))

resolve-Settled :
    (fopen : Text → Option (List Input)) (fuel : ℕ) (a : Asm)
    → (resolve fopen fuel a).0 ≡ done tt
    → Settled (resolve fopen fuel a).1
unfolding resolve ◌>>=◌
resolve-Settled fopen fuel a h = followed-Settled (process_deferred fopen fuel fuel 0 a) h

followed-resolved :
    (fopen : Text → Option (List Input)) (fuel : ℕ) (r : Outcome (Unit {0}) × Asm)
    → (followed r (λ u. resolve fopen fuel)).0 ≡ done tt
    → Settled (followed r (λ u. resolve fopen fuel)).1
followed-resolved fopen fuel (done u, b) h = resolve-Settled fopen fuel b h
followed-resolved fopen fuel (failed, b) h = absurd (ground (arith, h))
followed-resolved fopen fuel (stuck, b) h = absurd (ground (arith, h))

assemble-done :
    (fopen : Text → Option (List Input)) (fuel : ℕ) (filename : Text)
    → (assemble fopen fuel filename initial).0 ≡ done tt
    → Settled (assemble fopen fuel filename initial).1
unfolding assemble ◌>>=◌
assemble-done fopen fuel filename h =
    followed-resolved fopen fuel (process_file fopen (process_unit fopen fuel) filename initial) h

Outcome-cases : (o : Outcome (Unit {0})) → (o ≡ done tt) ⊎ (o ≡ failed) ⊎ (o ≡ stuck)
Outcome-cases (done u) = inl refl
Outcome-cases failed = inr (inl refl)
Outcome-cases stuck = inr (inr refl)

-- An assembly that ends, and whose result is true, leaves no lambda open, and no symbol that is
-- unknown or has a reference waiting for it.
pub assemble-Settled :
    (fopen : Text → Option (List Input)) (fuel : ℕ) (filename : Text)
    → (assemble fopen fuel filename initial).0 ≢ stuck
    → (assemble fopen fuel filename initial).1.success ≡ true
    → ((assemble fopen fuel filename initial).1.lambdas ≡ [])
      × AllSettled (assemble fopen fuel filename initial).1.symtab
assemble-Settled fopen fuel filename ends success =
    elim (Outcome-cases (assemble fopen fuel filename initial).0) [
      | inl e ↦ let d = assemble-done fopen fuel filename e in (d.1, d.2)
      | inr (inl e) ↦
          let f = (Sound-assemble fopen fuel filename).loud initial e in
          absurd (ground (arith, f, success))
      | inr (inr e) ↦ absurd (ends e)
    ]
