-- ===== src/Dbg/Frame.antt =====
-- src/vm/exec.h: the opcodes that leave the memory as it is.
use buxn.Prelude.{refl, ◌∙◌, false, arith, true, ◌≡◌, if◌then◌else◌, Bool, ℕ}
use buxn.Vm.Cpu.{
  ◌>>=◌, gets, when, modify, uop_jmp, uop_load, Cpu, uop_pop, begin_keep, Uop, uop_push,
}
use buxn.Vm.Exec.{poly_op, impl_op, poly_bin_op, advance, poly_cmp_op}
use buxn.Vm.Opcode.{stz, str, sta, dei, deo, lit, poly, Op, Base}
use buxn.Vm.State.{Host}

module _ {W : Type 0} where
  -- The micro operation changes no byte of the memory.
  abbrev pub KeepsMemory : {A : Type 0} → Uop W A → Type 0
  KeepsMemory m = (c : Cpu W) → (m c).1.vm.memory ≡ c.vm.memory

  KeepsMemory-bind :
      {A B : Type 0} (m : Uop W A) (f : A → Uop W B)
      → KeepsMemory m
      → ((a : A) → KeepsMemory (f a))
      → KeepsMemory (m >>= f)
  KeepsMemory-bind m f km kf c = kf (m c).0 (m c).1 ∙ km c

  KeepsMemory-gets : {A : Type 0} (f : Cpu W → A) → KeepsMemory (gets f)
  KeepsMemory-gets f c = refl

  KeepsMemory-skip : KeepsMemory (modify (λ c. c))
  KeepsMemory-skip c = refl

  KeepsMemory-if :
      {A : Type 0} (b : Bool) (m n : Uop W A)
      → KeepsMemory m
      → KeepsMemory n
      → KeepsMemory (if b then m else n)
  KeepsMemory-if true m n km kn = km
  KeepsMemory-if false m n km kn = kn

  KeepsMemory-when : (b : Bool) (m : Uop W (Unit {0})) → KeepsMemory m → KeepsMemory (when b m)
  KeepsMemory-when true m km = km
  KeepsMemory-when false m km = KeepsMemory-skip

  pub KeepsMemory-begin_keep : (k r : Bool) → KeepsMemory (modify (begin_keep k r))
  unfolding begin_keep
  KeepsMemory-begin_keep k r c = ground arith

  pub KeepsMemory-uop_pop : (k r s : Bool) → KeepsMemory (uop_pop k r s)
  unfolding uop_pop
  KeepsMemory-uop_pop k r s c = ground arith

  KeepsMemory-uop_push : (r s : Bool) (v : ℕ) → KeepsMemory (uop_push r s v)
  unfolding uop_push
  KeepsMemory-uop_push r s v c = ground arith

  KeepsMemory-uop_jmp : (s : Bool) (v : ℕ) → KeepsMemory (uop_jmp s v)
  unfolding uop_jmp
  KeepsMemory-uop_jmp s v c = ground arith

  KeepsMemory-uop_load : (s : Bool) (size a : ℕ) → KeepsMemory (uop_load s size a)
  unfolding uop_load
  KeepsMemory-uop_load s size a c = ground arith

  KeepsMemory-advance : (n : ℕ) → KeepsMemory (advance n)
  unfolding advance
  KeepsMemory-advance n c = refl

ruleset frame_rules = (
  KeepsMemory-bind, KeepsMemory-gets, KeepsMemory-skip, KeepsMemory-if, KeepsMemory-when,
  KeepsMemory-begin_keep, KeepsMemory-uop_pop, KeepsMemory-uop_push, KeepsMemory-uop_jmp,
  KeepsMemory-uop_load, KeepsMemory-advance,
)

module _ {W : Type 0} where
  KeepsMemory-poly_cmp_op : (b : Base) (k r s : Bool) → KeepsMemory {W = W} (poly_cmp_op b k r s)
  unfolding poly_cmp_op
  KeepsMemory-poly_cmp_op b k r s = search frame_rules

  KeepsMemory-poly_bin_op : (b : Base) (k r s : Bool) → KeepsMemory {W = W} (poly_bin_op b k r s)
  unfolding poly_bin_op
  KeepsMemory-poly_bin_op b k r s = search frame_rules

ruleset frame_ops = (frame_rules, KeepsMemory-poly_cmp_op, KeepsMemory-poly_bin_op)

-- The opcodes that store to the memory or call the host.
abbrev pub touches : Base → Bool
touches stz = true
touches str = true
touches sta = true
touches dei = true
touches deo = true
touches _ = false

module _ {W : Type 0} (host : Host W) where
  KeepsMemory-poly_op :
      (b : Base) (k r s : Bool) → touches b ≡ false → KeepsMemory (poly_op host b k r s)
  unfolding poly_op
  KeepsMemory-poly_op stz k r s h = absurd (ground arith)
  KeepsMemory-poly_op str k r s h = absurd (ground arith)
  KeepsMemory-poly_op sta k r s h = absurd (ground arith)
  KeepsMemory-poly_op dei k r s h = absurd (ground arith)
  KeepsMemory-poly_op deo k r s h = absurd (ground arith)
  KeepsMemory-poly_op Base.inc k r s h = search frame_ops depth 12
  KeepsMemory-poly_op _ k r s h = search frame_ops depth 12

  -- The label's code runs no store and calls no host.
  abbrev pub stores : Op → Bool
  stores (poly b k r s) = touches b
  stores _ = false

  pub KeepsMemory-impl_op : (op : Op) → stores op ≡ false → KeepsMemory (impl_op host op)
  unfolding impl_op
  KeepsMemory-impl_op (poly b k r s) h = search (frame_rules, KeepsMemory-poly_op)
  KeepsMemory-impl_op (lit r s) h = search frame_rules depth 8
  KeepsMemory-impl_op _ h = search frame_rules depth 8
