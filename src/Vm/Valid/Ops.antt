-- ===== src/Vm/Valid/Ops.antt =====
-- src/vm/exec.h: every opcode, in every mode, keeps the ranges.
use buxn.Prelude.{Bool}
use buxn.Vm.State.{Host}
use buxn.Vm.Opcode.{Base, Op, lit, poly}
use buxn.Vm.Exec.{poly_cmp_op, poly_bin_op, poly_op, impl_op}
use buxn.Vm.Valid.Uops.{
  Keeps, HostIsValid, Keeps-bind, Keeps-gets, Keeps-skip, Keeps-if, Keeps-when, Keeps-save_state,
  Keeps-load_state, Keeps-begin_keep, Keeps-uop_pop, Keeps-uop_push, Keeps-uop_jmp, Keeps-advance,
  Keeps-uop_load, Keeps-uop_store, Keeps-uop_dev_in, Keeps-uop_dev_out,
}

ruleset uop_rules = (
  Keeps-bind, Keeps-gets, Keeps-skip, Keeps-if, Keeps-when, Keeps-save_state, Keeps-load_state,
  Keeps-begin_keep, Keeps-uop_pop, Keeps-uop_push, Keeps-uop_jmp, Keeps-advance, Keeps-uop_load,
  Keeps-uop_store, Keeps-uop_dev_in, Keeps-uop_dev_out,
)

module _ {W : Type 0} where
  Keeps-poly_cmp_op : (b : Base) (k r s : Bool) → Keeps {W = W} (poly_cmp_op b k r s)
  unfolding poly_cmp_op
  Keeps-poly_cmp_op b k r s = search uop_rules

  Keeps-poly_bin_op : (b : Base) (k r s : Bool) → Keeps {W = W} (poly_bin_op b k r s)
  unfolding poly_bin_op
  Keeps-poly_bin_op b k r s = search uop_rules

ruleset op_rules = (uop_rules, Keeps-poly_cmp_op, Keeps-poly_bin_op)

module _ {W : Type 0} (host : Host W) (hh : HostIsValid host) where
  pub Keeps-poly_op : (b : Base) (k r s : Bool) → Keeps (poly_op host b k r s)
  unfolding poly_op
  Keeps-poly_op Base.inc k r s = search op_rules depth 12
  Keeps-poly_op _ k r s = search op_rules depth 12

  pub Keeps-impl_op : (op : Op) → Keeps (impl_op host op)
  unfolding impl_op
  Keeps-impl_op (poly b k r s) = search (uop_rules, Keeps-poly_op)
  Keeps-impl_op (lit r s) = search uop_rules depth 8
  Keeps-impl_op _ = search uop_rules depth 8
