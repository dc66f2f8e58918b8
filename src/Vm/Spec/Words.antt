-- ===== src/Vm/Spec/Words.antt =====
-- src/vm/exec.h: what POP and PUSH do to the list below the pointer, in both widths.
use buxn.Prelude.{
  ℕ, ◌+◌, ◌≤◌, ◌<◌, ◌≡◌, refl, ◌∙◌, not, lo_byte, hi_byte, Bool, true, false, arith, List, [], ◌∷◌,
  ◌++◌, u8, update,
}
use mathlib.Core.List.{append_assoc}
use native.Mathlib.Nat.{le_refl}
use buxn.Vm.Cpu.{Cpu, Uop, begin_keep, ◌>>=◌, ◌>>◌, gets, ptr, set_ptr, stack, uop_pop, uop_push}
use buxn.Vm.Spec.Lists.{word_bytes, word_size, taken, pushed, Fit}
use buxn.Vm.Spec.Reads.{length, Reads, Reads-cong, Reads-push1, below_word, below}

module _ {W : Type 0} where
  pub set_ptr-set_ptr :
      (k r : Bool) (p q : ℕ) (c : Cpu W) → set_ptr k r p (set_ptr k r q c) ≡ set_ptr k r p c
  unfolding set_ptr
  set_ptr-set_ptr k r p q c = ground arith

  pub set_ptr-ptr : (k r : Bool) (c : Cpu W) → set_ptr k r (ptr k r c) c ≡ c
  unfolding set_ptr ptr
  set_ptr-ptr k r c = ground arith

  pub ptr-set_ptr : (k r : Bool) (p : ℕ) (c : Cpu W) → ptr k r (set_ptr k r p c) ≡ p
  unfolding set_ptr ptr
  ptr-set_ptr k r p c = ground arith

  pub stack-set_ptr :
      (k r t : Bool) (p : ℕ) (c : Cpu W) → stack t ((set_ptr k r p c).vm) ≡ stack t c.vm
  unfolding set_ptr stack
  stack-set_ptr k r t p c = ground arith

  pop_once :
      (k r s : Bool) (c : Cpu W) (x : ℕ) (rest : List ℕ)
      → x < word_size s
      → Reads (stack r c.vm) (ptr k r c) (word_bytes s x ++ rest)
      → (uop_pop k r s c ≡ (x, set_ptr k r (below_word s (ptr k r c)) c))
        × Reads (stack r c.vm) (below_word s (ptr k r c)) rest
  unfolding uop_pop
  pop_once k r false c x rest hx (h, hr) = (ground arith, hr)
  pop_once k r true c x rest hx (lo, (hi, hr)) = (ground arith, rw (← e) hr)
    where
      e : u8 (u8 (ptr k r c + 255) + 255) ≡ u8 (ptr k r c + 254)
      e = omega arith

  unfoldable pub pop_words : Bool → Bool → List Bool → Uop W (List ℕ)
  pop_words k r [] = gets (λ _. [])
  pop_words k r (s ∷ ws) = do x ← uop_pop k r s; xs ← pop_words k r ws; gets (λ _. x ∷ xs)

  unfoldable pub push_words : Bool → Bool → List ℕ → Uop W (Unit {0})
  push_words r s [] = gets (λ _. tt)
  push_words r s (v ∷ vs) = do uop_push r s v; push_words r s vs

  -- Words popped in turn are those of the list, and only the pointer moves.
  pub pop_words_lem :
      (k r : Bool) (ws : List Bool) (c : Cpu W) (xs rest : List ℕ)
      → Fit ws xs
      → Reads (stack r c.vm) (ptr k r c) (taken ws xs ++ rest)
      → (pop_words k r ws c ≡ (xs, set_ptr k r (below ws (ptr k r c)) c))
        × Reads (stack r c.vm) (below ws (ptr k r c)) rest
  unfolding pop_words
  pop_words_lem k r [] c [] rest hx h = (rw set_ptr-ptr refl, h)
  pop_words_lem k r [] c (x ∷ xs) rest hx h = absurd hx
  pop_words_lem k r (s ∷ ws) c [] rest hx h = absurd hx
  pop_words_lem k r (s ∷ ws) c (x ∷ xs) rest (hx, fit) h =
      let p = below_word s (ptr k r c) in
      let c' = set_ptr k r p c in
      let (e, h') = pop_once k r s c x (taken ws xs ++ rest) hx (rw append_assoc at h) in
      let (e', h'') = pop_words_lem k r ws c' xs rest fit (rw (ptr-set_ptr, stack-set_ptr) h') in
      (rw (e, e', ptr-set_ptr, set_ptr-set_ptr) refl, rw (ptr-set_ptr, stack-set_ptr) at h'')

-- Only the stack that the flag r selects, its pointer and the keep pointers may differ.
pub record Frame {W : Type 0} (r : Bool) (c c' : Cpu W) : Type 0 where
  pub pc : c'.pc ≡ c.pc
  pub other_ptr : ptr false (not r) c' ≡ ptr false (not r) c
  pub other_stack : stack (not r) c'.vm ≡ stack (not r) c.vm
  pub device : c'.vm.device ≡ c.vm.device
  pub memory : c'.vm.memory ≡ c.vm.memory
  pub userdata : c'.vm.userdata ≡ c.vm.userdata

le-length-pushed : (s : Bool) (vs rest : List ℕ) → length rest ≤ length (pushed s vs rest)
le-length-pushed s [] rest = le_refl _
le-length-pushed false (v ∷ vs) rest =
    omega (arith, le-length-pushed false vs (word_bytes false v ++ rest))
le-length-pushed true (v ∷ vs) rest =
    omega (arith, le-length-pushed true vs (word_bytes true v ++ rest))

module _ {W : Type 0} where
  pub Frame-trans : {r : Bool} {c d e : Cpu W} → Frame r c d → Frame r d e → Frame r c e
  Frame-trans f g = record {
    pc = g.pc ∙ f.pc;
    other_ptr = g.other_ptr ∙ f.other_ptr;
    other_stack = g.other_stack ∙ f.other_stack;
    device = g.device ∙ f.device;
    memory = g.memory ∙ f.memory;
    userdata = g.userdata ∙ f.userdata;
  }

  Frame-refl : {r : Bool} {c : Cpu W} → Frame r c c
  Frame-refl = record {
    pc = refl;
    other_ptr = refl;
    other_stack = refl;
    device = refl;
    memory = refl;
    userdata = refl;
  }

  pub Frame-set_ptr : (k r : Bool) (p : ℕ) (c : Cpu W) → Frame r c (set_ptr k r p c)
  unfolding set_ptr ptr stack
  Frame-set_ptr k r p c = ground arith

  Frame-uop_push : (r s : Bool) (v : ℕ) (c : Cpu W) → Frame r c (uop_push r s v c).1
  unfolding uop_push ptr stack
  Frame-uop_push r s v c = ground arith

  pub Frame-begin_keep : (k r : Bool) (c : Cpu W) → Frame r c (begin_keep k r c)
  unfolding begin_keep ptr stack
  Frame-begin_keep k r c = ground arith

  -- The stack and its pointer after a push.
  uop_push1_lem :
      (r : Bool) (v : ℕ) (c : Cpu W)
      → (stack r ((uop_push r false v c).1.vm) ≡ update (stack r c.vm) (ptr false r c) (lo_byte v))
        × (ptr false r (uop_push r false v c).1 ≡ u8 (ptr false r c + 1))
  unfolding uop_push ptr stack
  uop_push1_lem r v c = ground arith

  uop_push2_lem :
      (r : Bool) (v : ℕ) (c : Cpu W)
      → (stack r ((uop_push r true v c).1.vm)
          ≡ update
              (update (stack r c.vm) (ptr false r c) (hi_byte v))
              (u8 (ptr false r c + 1))
              (lo_byte v))
        × (ptr false r (uop_push r true v c).1 ≡ u8 (ptr false r c + 2))
  unfolding uop_push ptr stack
  uop_push2_lem r v c = ground arith

  push_once :
      (r s : Bool) (v : ℕ) (c : Cpu W) (rest : List ℕ)
      → ptr false r c < 256
      → length (word_bytes s v ++ rest) ≤ 256
      → Reads (stack r c.vm) (ptr false r c) rest
      → (ptr false r (uop_push r s v c).1 < 256)
        × Reads
            (stack r ((uop_push r s v c).1.vm))
            (ptr false r (uop_push r s v c).1)
            (word_bytes s v ++ rest)
  push_once r false v c rest hp hl h =
      let (e, e') = uop_push1_lem r v c in
      (
        rw e' (omega arith),
        Reads-cong _ _ _ _ (lo_byte v ∷ rest) e e'
            (Reads-push1 (stack r c.vm) _ (lo_byte v) rest hp (omega arith) h),
      )
  push_once r true v c rest hp hl h =
      let (e, e') = uop_push2_lem r v c in
      let p : ℕ = ptr false r c in
      let t : u8 (p + 2) ≡ u8 (u8 (p + 1) + 1) = omega arith in
      let once = Reads-push1 (stack r c.vm) p (hi_byte v) rest hp (omega arith) h in
      let both =
        Reads-push1 (update (stack r c.vm) p (hi_byte v)) (u8 (p + 1)) (lo_byte v)
          (hi_byte v ∷ rest) (omega arith) (omega arith) once in
      (rw e' (omega arith), Reads-cong _ _ _ _ (lo_byte v ∷ hi_byte v ∷ rest) e (e' ∙ t) both)

  -- Words pushed in turn stand on the list, as long as it keeps to 256 bytes.
  pub push_words_lem :
      (r s : Bool) (vs : List ℕ) (c : Cpu W) (rest : List ℕ)
      → ptr false r c < 256
      → length (pushed s vs rest) ≤ 256
      → Reads (stack r c.vm) (ptr false r c) rest
      → Frame r c (push_words r s vs c).1
        × (ptr false r (push_words r s vs c).1 < 256)
        × Reads
            (stack r ((push_words r s vs c).1.vm))
            (ptr false r (push_words r s vs c).1)
            (pushed s vs rest)
  unfolding push_words
  push_words_lem r s [] c rest hp hl h = (Frame-refl, hp, h)
  push_words_lem r s (v ∷ vs) c rest hp hl h =
      let (hp', h') =
        push_once r s v c rest hp (omega (arith, le-length-pushed s vs (word_bytes s v ++ rest)))
          h in
      let (f, hq, hr) =
        push_words_lem r s vs (uop_push r s v c).1 (word_bytes s v ++ rest) hp' hl h' in
      (Frame-trans (Frame-uop_push r s v c) f, hq, hr)
