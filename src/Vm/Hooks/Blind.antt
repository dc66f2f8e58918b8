-- ===== src/Vm/Hooks/Blind.antt =====
-- src/vm/exec.h: the opcodes do not read the stack pointers that the machine record holds, only the
-- interpreter's own.
use buxn.Prelude.{ℕ, ◌≡◌, refl, sym, ap, ◌∙◌, Bool, true, false, arith, if◌then◌else◌}
use buxn.Vm.State.{Host}
use buxn.Vm.Opcode.{Base, Op, poly, lit}
use buxn.Vm.Cpu.{
  Cpu, Uop, ◌>>=◌, modify, gets, when, save_state, begin_keep, uop_pop, uop_push, uop_jmp, uop_load,
  uop_store,
}
use buxn.Vm.Exec.{poly_cmp_op, poly_bin_op, poly_op, impl_op, advance}

-- With the saved pointers the micro operation gives the same value, and locals that are the same
-- once they are saved.
pub record Blind {W A : Type 0} (m : Uop W A) : Type 0 where
  pub value : (c : Cpu W) → (m (save_state c)).0 ≡ (m c).0
  pub after : (c : Cpu W) → save_state (m (save_state c)).1 ≡ save_state (m c).1

module _ {W : Type 0} where
  Blind-bind :
      {A B : Type 0} (m : Uop W A) (f : A → Uop W B)
      → Blind m
      → ((a : A) → Blind (f a))
      → Blind (m >>= f)
  Blind-bind m f bm bf = record {
    value = λ c.
        let x = (m (save_state c)).1 in
        let a = (m c).0 in
        ap (λ t. (f t x).0) (bm.value c)
        ∙ sym ((bf a).value x)
        ∙ ap (λ t. (f a t).0) (bm.after c)
        ∙ (bf a).value (m c).1;
    after = λ c.
        let x = (m (save_state c)).1 in
        let a = (m c).0 in
        ap (λ t. save_state (f t x).1) (bm.value c)
        ∙ sym ((bf a).after x)
        ∙ ap (λ t. save_state (f a t).1) (bm.after c)
        ∙ (bf a).after (m c).1;
  }

  save_state-save_state : (c : Cpu W) → save_state (save_state c) ≡ save_state c
  unfolding save_state
  save_state-save_state c = refl

  Blind-save : {B : Type 0} (m : Uop W B) → Blind (modify save_state >>= λ _. m)
  Blind-save m = record {
    value = λ c. ap (λ t. (m t).0) (save_state-save_state c);
    after = λ c. ap (λ t. save_state (m t).1) (save_state-save_state c);
  }

  Blind-pc : Blind {W = W} (gets (λ c. c.pc))
  unfolding save_state
  Blind-pc = record { value = λ c. refl; after = λ c. refl }

  Blind-pure : {A : Type 0} (a : A) → Blind {W = W} (gets (λ _. a))
  unfolding save_state
  Blind-pure a = record { value = λ c. refl; after = λ c. refl }

  Blind-skip : Blind {W = W} (modify (λ c. c))
  unfolding save_state
  Blind-skip = record { value = λ c. refl; after = λ c. refl }

  Blind-if :
      {A : Type 0} (b : Bool) (m n : Uop W A) → Blind m → Blind n → Blind (if b then m else n)
  Blind-if true m n km kn = km
  Blind-if false m n km kn = kn

  Blind-when : (b : Bool) (m : Uop W (Unit {0})) → Blind m → Blind (when b m)
  Blind-when true m km = km
  Blind-when false m km = Blind-skip

  Blind-begin_keep : (k r : Bool) → Blind {W = W} (modify (begin_keep k r))
  unfolding begin_keep save_state
  Blind-begin_keep k r = record { value = λ c. ground arith; after = λ c. ground arith }

  Blind-uop_pop : (k r s : Bool) → Blind {W = W} (uop_pop k r s)
  unfolding uop_pop save_state
  Blind-uop_pop k r s = record { value = λ c. ground arith; after = λ c. ground arith }

  Blind-uop_push : (r s : Bool) (v : ℕ) → Blind {W = W} (uop_push r s v)
  unfolding uop_push save_state
  Blind-uop_push r s v = record { value = λ c. ground arith; after = λ c. ground arith }

  Blind-uop_jmp : (s : Bool) (v : ℕ) → Blind {W = W} (uop_jmp s v)
  unfolding uop_jmp save_state
  Blind-uop_jmp s v = record { value = λ c. ground arith; after = λ c. ground arith }

  Blind-uop_load : (s : Bool) (size a : ℕ) → Blind {W = W} (uop_load s size a)
  unfolding uop_load save_state
  Blind-uop_load s size a = record { value = λ c. ground arith; after = λ c. ground arith }

  Blind-uop_store : (s : Bool) (size a v : ℕ) → Blind {W = W} (uop_store s size a v)
  unfolding uop_store save_state
  Blind-uop_store s size a v = record { value = λ c. ground arith; after = λ c. ground arith }

  Blind-advance : (n : ℕ) → Blind {W = W} (advance n)
  unfolding advance save_state
  Blind-advance n = record { value = λ c. ground arith; after = λ c. ground arith }

ruleset blind_rules = (
  Blind-save, Blind-bind, Blind-pc, Blind-pure, Blind-skip, Blind-if, Blind-when, Blind-begin_keep,
  Blind-uop_pop, Blind-uop_push, Blind-uop_jmp, Blind-uop_load, Blind-uop_store, Blind-advance,
)

module _ {W : Type 0} where
  Blind-poly_cmp_op : (b : Base) (k r s : Bool) → Blind {W = W} (poly_cmp_op b k r s)
  unfolding poly_cmp_op
  Blind-poly_cmp_op b k r s = search blind_rules

  Blind-poly_bin_op : (b : Base) (k r s : Bool) → Blind {W = W} (poly_bin_op b k r s)
  unfolding poly_bin_op
  Blind-poly_bin_op b k r s = search blind_rules

ruleset blind_ops = (blind_rules, Blind-poly_cmp_op, Blind-poly_bin_op)

module _ {W : Type 0} (host : Host W) where
  Blind-poly_op : (b : Base) (k r s : Bool) → Blind (poly_op host b k r s)
  unfolding poly_op
  Blind-poly_op Base.inc k r s = search blind_ops depth 12
  Blind-poly_op _ k r s = search blind_ops depth 12

  pub Blind-impl_op : (op : Op) → Blind (impl_op host op)
  unfolding impl_op
  Blind-impl_op (poly b k r s) = search (blind_rules, Blind-poly_op)
  Blind-impl_op (lit r s) = search blind_rules depth 8
  Blind-impl_op _ = search blind_rules depth 8
