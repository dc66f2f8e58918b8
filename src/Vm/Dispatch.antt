-- ===== src/Vm/Dispatch.antt =====
-- include/buxn/vm/opcodes.h: the dispatch table has one label for each byte.
use buxn.Prelude.{
  ℕ, ◌<◌, ◌≡◌, refl, Bool, true, false, Option, none, some, arith, ◌==◌, ==_iff, table, table_row,
}
use buxn.Vm.Opcode.{Base, inc, Op, brk, jci, jmi, jsi, lit, poly, value, dispatch}

abbrev labelled : ℕ → Option Op → Bool
labelled b none = false
labelled b (some op) = value op == b

labelled_lem :
    (b : ℕ) (o : Option Op) → labelled b o ≡ true → (op : Op) × (o ≡ some op) × (value op ≡ b)
labelled_lem b none h = absurd (ground arith)
labelled_lem b (some op) h = (op, refl, (==_iff _ b).0 h)

all_labelled : table 256 (λ b. labelled b (dispatch b)) ≡ true
unfolding table dispatch value
all_labelled = refl

-- Every byte below 256 selects a label of the table, and that label has the byte for its value.
pub dispatch-total : (b : ℕ) → b < 256 → (op : Op) × (dispatch b ≡ some op) × (value op ≡ b)
dispatch-total b h =
    labelled_lem b (dispatch b) (table_row 256 (λ b. labelled b (dispatch b)) b all_labelled h)

-- The eight labels of a row.
poly_row-dispatch :
    (b : Base)
    → (dispatch (value (poly b false false false)) ≡ some (poly b false false false))
      × (dispatch (value (poly b false false true)) ≡ some (poly b false false true))
      × (dispatch (value (poly b false true false)) ≡ some (poly b false true false))
      × (dispatch (value (poly b false true true)) ≡ some (poly b false true true))
      × (dispatch (value (poly b true false false)) ≡ some (poly b true false false))
      × (dispatch (value (poly b true false true)) ≡ some (poly b true false true))
      × (dispatch (value (poly b true true false)) ≡ some (poly b true true false))
      × (dispatch (value (poly b true true true)) ≡ some (poly b true true true))
unfolding dispatch value
poly_row-dispatch inc = (refl, refl, refl, refl, refl, refl, refl, refl)
poly_row-dispatch _ = (refl, refl, refl, refl, refl, refl, refl, refl)

-- The value of each of the 256 labels selects that label again, so no two labels share an entry of
-- the table.
pub dispatch-value : (op : Op) → dispatch (value op) ≡ some op
unfolding dispatch value
dispatch-value brk = refl
dispatch-value jci = refl
dispatch-value jmi = refl
dispatch-value jsi = refl
dispatch-value (lit false false) = refl
dispatch-value (lit false true) = refl
dispatch-value (lit true false) = refl
dispatch-value (lit true true) = refl
dispatch-value (poly b false false false) = (poly_row-dispatch b).0
dispatch-value (poly b false false true) = (poly_row-dispatch b).1
dispatch-value (poly b false true false) = (poly_row-dispatch b).2
dispatch-value (poly b false true true) = (poly_row-dispatch b).3
dispatch-value (poly b true false false) = (poly_row-dispatch b).4
dispatch-value (poly b true false true) = (poly_row-dispatch b).5
dispatch-value (poly b true true false) = (poly_row-dispatch b).6
dispatch-value (poly b true true true) = (poly_row-dispatch b).7
