-- ===== src/Vm/Spec/Refine.antt =====
-- src/vm/exec.h: the stack opcodes, in every mode, refine their stack notation on lists.
use mathlib.Core.Bool.{false≢true}
use buxn.Prelude.{
  ℕ, ◌+◌, ◌-◌, ◌*◌, ◌/◌, ◌%◌, ◌^◌, ◌≤◌, ◌<◌, ◌≡◌, refl, Bool, true, false, arith, List, [], ◌∷◌,
  ◌++◌, u16,
}
use buxn.Vm.State.{Host}
use buxn.Vm.Opcode.{
  Base, inc, pop, nip, swp, rot, dup, ovr, equ, neq, gth, lth, add, sub, mul, div, and, ora, eor,
  sft, poly,
}
use buxn.Vm.Cpu.{Cpu, ◌>>=◌, ptr, set_ptr, stack, begin_keep}
use buxn.Vm.Exec.{compare_op, binary_op, shift_op, poly_op, impl_op}
use buxn.Vm.Spec.Lists.{is_stack_op, operands, results, result_width, word_size, taken, pushed, Fit}
use buxn.Vm.Spec.Reads.{length, Reads, Reads-cong, below, below-lt}
use buxn.Vm.Spec.Words.{
  pop_words, push_words, pop_words_lem, push_words_lem, Frame, Frame-trans, Frame-set_ptr,
  Frame-begin_keep, ptr-set_ptr, stack-set_ptr,
}

-- The values that the code pushes, before they are cut to the width.
abbrev raw_results : Base → List ℕ → List ℕ
raw_results inc (a ∷ []) = u16 (a + 1) ∷ []
raw_results pop (a ∷ []) = []
raw_results nip (b ∷ a ∷ []) = b ∷ []
raw_results swp (b ∷ a ∷ []) = b ∷ a ∷ []
raw_results rot (c ∷ b ∷ a ∷ []) = b ∷ c ∷ a ∷ []
raw_results dup (a ∷ []) = a ∷ a ∷ []
raw_results ovr (b ∷ a ∷ []) = a ∷ b ∷ a ∷ []
raw_results equ (b ∷ a ∷ []) = compare_op equ a b ∷ []
raw_results neq (b ∷ a ∷ []) = compare_op neq a b ∷ []
raw_results gth (b ∷ a ∷ []) = compare_op gth a b ∷ []
raw_results lth (b ∷ a ∷ []) = compare_op lth a b ∷ []
raw_results sft (b ∷ a ∷ []) = shift_op a b ∷ []
raw_results op (b ∷ a ∷ []) = binary_op op a b ∷ []
raw_results _ _ = []

module _ {W : Type 0} (host : Host W) where
  poly_op-words :
      (b : Base) (k r s : Bool) (c : Cpu W)
      → is_stack_op b ≡ true
      → poly_op host b k r s c
        ≡ (do xs ← pop_words k r (operands b s); push_words r (result_width b s) (raw_results b xs))
            c
  unfolding poly_op pop_words push_words
  poly_op-words inc k r s c h = refl
  poly_op-words pop k r s c h = refl
  poly_op-words nip k r s c h = refl
  poly_op-words swp k r s c h = refl
  poly_op-words rot k r s c h = refl
  poly_op-words dup k r s c h = refl
  poly_op-words ovr k r s c h = refl
  poly_op-words equ k r s c h = refl
  poly_op-words neq k r s c h = refl
  poly_op-words gth k r s c h = refl
  poly_op-words lth k r s c h = refl
  poly_op-words add k r s c h = refl
  poly_op-words sub k r s c h = refl
  poly_op-words mul k r s c h = refl
  poly_op-words div k r s c h = refl
  poly_op-words and k r s c h = refl
  poly_op-words ora k r s c h = refl
  poly_op-words eor k r s c h = refl
  poly_op-words sft k r s c h = refl
  poly_op-words _ k r s c h = absurd (false≢true h)

one_result :
    (s : Bool) (v v' : ℕ) (rest : List ℕ)
    → v % word_size s ≡ v' % word_size s
    → pushed s (v ∷ []) rest ≡ pushed s (v' ∷ []) rest
one_result false v v' rest h = ground arith
one_result true v v' rest h = ground arith

Fit-one : (s : Bool) (xs : List ℕ) → Fit (s ∷ []) xs → (a : ℕ) × (xs ≡ a ∷ [])
Fit-one s (a ∷ []) h = (a, refl)
Fit-one s [] h = absurd h
Fit-one s (a ∷ b ∷ xs) h = absurd h.1

Fit-two :
    (s t : Bool) (xs : List ℕ)
    → Fit (s ∷ t ∷ []) xs
    → (b : ℕ) × (a : ℕ) × (xs ≡ b ∷ a ∷ []) × (b < word_size s) × (a < word_size t)
Fit-two s t (b ∷ a ∷ []) (hb, (ha, _)) = (b, a, refl, hb, ha)
Fit-two s t [] h = absurd h
Fit-two s t (b ∷ []) h = absurd h.1
Fit-two s t (b ∷ a ∷ x ∷ xs) h = absurd h.1.1

Fit-three :
    (s : Bool) (xs : List ℕ)
    → Fit (s ∷ s ∷ s ∷ []) xs
    → (c : ℕ) × (b : ℕ) × (a : ℕ) × (xs ≡ c ∷ b ∷ a ∷ [])
Fit-three s (c ∷ b ∷ a ∷ []) h = (c, b, a, refl)
Fit-three s [] h = absurd h
Fit-three s (c ∷ []) h = absurd h.1
Fit-three s (c ∷ b ∷ []) h = absurd h.1.1
Fit-three s (c ∷ b ∷ a ∷ x ∷ xs) h = absurd h.1.1.1

u16-wrap : (s : Bool) (v : ℕ) → u16 v % word_size s ≡ v % word_size s % word_size s
u16-wrap false v = omega arith
u16-wrap true v = omega arith

sub-wrap :
    (s : Bool) (a b : ℕ)
    → b < word_size s
    → u16 (a + 65536 - b) % word_size s ≡ (a + word_size s - b) % word_size s % word_size s
sub-wrap false a b h = omega arith
sub-wrap true a b h = omega arith

-- The value that the code computes in 16 bits is the result of the notation, once cut to the width.
raw-results :
    (op : Base) (s : Bool) (xs rest : List ℕ)
    → is_stack_op op ≡ true
    → Fit (operands op s) xs
    → pushed (result_width op s) (raw_results op xs) rest
      ≡ pushed (result_width op s) (results op s xs) rest
unfolding compare_op binary_op shift_op
raw-results inc s xs rest h fit =
    let (a, e) = Fit-one s xs fit in rw e (one_result s _ _ rest (u16-wrap s (a + 1)))
raw-results pop s xs rest h fit = let (a, e) = Fit-one s xs fit in rw e
raw-results dup s xs rest h fit = let (a, e) = Fit-one s xs fit in rw e
raw-results rot s xs rest h fit = let (c, b, a, e) = Fit-three s xs fit in rw e
raw-results add s xs rest h fit =
    let (b, a, e, _, _) = Fit-two s s xs fit in rw e (one_result s _ _ rest (u16-wrap s (a + b)))
raw-results sub s xs rest h fit =
    let (b, a, e, hb, _) = Fit-two s s xs fit in rw e (one_result s _ _ rest (sub-wrap s a b hb))
raw-results mul s xs rest h fit =
    let (b, a, e, _, _) = Fit-two s s xs fit in rw e (one_result s _ _ rest (u16-wrap s (a * b)))
raw-results sft s xs rest h fit =
    let (b, a, e, hb, _) = Fit-two false s xs fit in
    let top : b / 16 % 16 ≡ b / 16 = omega arith in
    rw (e, top) (one_result s _ _ rest (u16-wrap s (a / 2 ^ (b % 16) * 2 ^ (b / 16))))
raw-results neq s xs rest h fit = let (b, a, e, _, _) = Fit-two s s xs fit in rw e (ground arith)
raw-results nip s xs rest h fit = let (b, a, e, _, _) = Fit-two s s xs fit in rw e
raw-results swp s xs rest h fit = let (b, a, e, _, _) = Fit-two s s xs fit in rw e
raw-results ovr s xs rest h fit = let (b, a, e, _, _) = Fit-two s s xs fit in rw e
raw-results equ s xs rest h fit = let (b, a, e, _, _) = Fit-two s s xs fit in rw e
raw-results gth s xs rest h fit = let (b, a, e, _, _) = Fit-two s s xs fit in rw e
raw-results lth s xs rest h fit = let (b, a, e, _, _) = Fit-two s s xs fit in rw e
raw-results div s xs rest h fit = let (b, a, e, _, _) = Fit-two s s xs fit in rw e
raw-results and s xs rest h fit = let (b, a, e, _, _) = Fit-two s s xs fit in rw e
raw-results ora s xs rest h fit = let (b, a, e, _, _) = Fit-two s s xs fit in rw e
raw-results eor s xs rest h fit = let (b, a, e, _, _) = Fit-two s s xs fit in rw e
raw-results _ s xs rest h fit = absurd (false≢true h)

-- From `c` to `c'` the selected stack comes to hold `ys` under a pointer in range, and nothing else
-- that a program can see changes.
pub record Effect {W : Type 0} (r : Bool) (ys : List ℕ) (c c' : Cpu W) : Type 0 where
  pub frame : Frame r c c'
  pub in_range : ptr false r c' < 256
  pub holds : Reads (stack r c'.vm) (ptr false r c') ys

-- What the pops leave under the results: with the flag k, the operands too.
abbrev pub kept : Bool → List ℕ → List ℕ → List ℕ
kept false ops rest = rest
kept true ops rest = ops ++ rest

module _ {W : Type 0} where
  begin_keep_lem :
      (k r : Bool) (c : Cpu W)
      → (ptr k r (begin_keep k r c) ≡ ptr false r c)
        × (ptr false r (begin_keep k r c) ≡ ptr false r c)
        × (stack r ((begin_keep k r c).vm) ≡ stack r c.vm)
  unfolding begin_keep ptr stack
  begin_keep_lem k r c = ground arith

  ptr-set_keep : (r : Bool) (q : ℕ) (c : Cpu W) → ptr false r (set_ptr true r q c) ≡ ptr false r c
  unfolding set_ptr ptr
  ptr-set_keep r q c = ground arith

  -- The push pointer after the pops.
  after_pops :
      (k r : Bool) (q : ℕ) (c : Cpu W) (ops rest : List ℕ)
      → q < 256
      → ptr false r c < 256
      → Reads (stack r c.vm) q rest
      → Reads (stack r c.vm) (ptr false r c) (ops ++ rest)
      → (ptr false r (set_ptr k r q c) < 256)
        × Reads (stack r ((set_ptr k r q c).vm)) (ptr false r (set_ptr k r q c)) (kept k ops rest)
  after_pops false r q c ops rest hq hp h h' = (
    rw ptr-set_ptr hq,
    Reads-cong _ _ _ _ rest (stack-set_ptr false r r q c) (ptr-set_ptr false r q c) h,
  )
  after_pops true r q c ops rest hq hp h h' = (
    rw ptr-set_keep hp,
    Reads-cong _ _ _ _ (ops ++ rest) (stack-set_ptr true r r q c) (ptr-set_keep r q c) h',
  )

module _ {W : Type 0} (host : Host W) where
  -- Let a stack hold the operands of one of the nineteen stack opcodes above any other bytes. In
  -- every mode, as long as the outcome fits 256 bytes, the opcode leaves the results of its stack
  -- notation there, above the operands if it has the flag k and in their place otherwise; the other
  -- stack, the memory, the devices, the host's data and the program counter stay as they are.
  pub impl_op-Effect :
      (b : Base) (k r s : Bool) (c : Cpu W) (xs rest : List ℕ)
      → is_stack_op b ≡ true
      → ptr false r c < 256
      → Fit (operands b s) xs
      → length (pushed (result_width b s) (results b s xs) (kept k (taken (operands b s) xs) rest))
        ≤ 256
      → Reads (stack r c.vm) (ptr false r c) (taken (operands b s) xs ++ rest)
      → Effect r
          (pushed (result_width b s) (results b s xs) (kept k (taken (operands b s) xs) rest))
          c
          (impl_op host (poly b k r s) c).1
  unfolding impl_op
  impl_op-Effect b k r s c xs rest op hp fit room h =
      let c₀ = begin_keep k r c in
      let (kp, fp, st) = begin_keep_lem k r c in
      let ops = taken (operands b s) xs in
      let w = result_width b s in
      let h₀ : Reads (stack r c₀.vm) (ptr false r c₀) (ops ++ rest) =
        Reads-cong _ _ _ _ (ops ++ rest) st fp h in
      let h₁ : Reads (stack r c₀.vm) (ptr k r c₀) (ops ++ rest) =
        Reads-cong _ _ _ _ (ops ++ rest) st kp h in
      let (e, hr) = pop_words_lem k r (operands b s) c₀ xs rest fit h₁ in
      let q = below (operands b s) (ptr k r c₀) in
      let (lt, below_results) =
        after_pops k r q c₀ ops rest (below-lt (operands b s) (ptr k r c₀) (rw kp hp)) (rw fp hp) hr
          h₀ in
      let left = kept k ops rest in
      let same = raw-results b s xs left op fit in
      let (f, p, holds) =
        push_words_lem r w (raw_results b xs) (set_ptr k r q c₀) left lt (rw same room)
          below_results in
      rw (poly_op-words host b k r s c₀ op, e)
        record {
          frame = Frame-trans (Frame-begin_keep k r c) (Frame-trans (Frame-set_ptr k r q c₀) f);
          in_range = p;
          holds = rw same at holds;
        }
