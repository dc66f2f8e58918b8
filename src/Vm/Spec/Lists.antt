-- ===== src/Vm/Spec/Lists.antt =====
-- A stack as the list of its bytes, top first, and what each opcode does to its top.
use buxn.Prelude.{
  ℕ, ◌+◌, ◌-◌, ◌*◌, ◌/◌, ◌%◌, ◌^◌, ◌<◌, Bool, true, false, List, [], ◌∷◌, ◌++◌, ltb, ◌==◌,
  if◌then◌else◌, hi_byte, lo_byte, bit_and, bit_or, bit_xor,
}
use buxn.Vm.Opcode.{
  Base, inc, pop, nip, swp, rot, dup, ovr, equ, neq, gth, lth, add, sub, mul, div, and, ora, eor,
  sft,
}

-- The bytes of a word, top first: one, or with the flag s the low one above the high one.
abbrev pub word_bytes : Bool → ℕ → List ℕ
word_bytes false v = lo_byte v ∷ []
word_bytes true v = lo_byte v ∷ hi_byte v ∷ []

-- The values of a word of the width.
abbrev pub word_size : Bool → ℕ
word_size false = 256
word_size true = 65536

-- The opcodes that only take words from one stack and put words back.
abbrev pub is_stack_op : Base → Bool
is_stack_op inc = true
is_stack_op pop = true
is_stack_op nip = true
is_stack_op swp = true
is_stack_op rot = true
is_stack_op dup = true
is_stack_op ovr = true
is_stack_op equ = true
is_stack_op neq = true
is_stack_op gth = true
is_stack_op lth = true
is_stack_op add = true
is_stack_op sub = true
is_stack_op mul = true
is_stack_op div = true
is_stack_op and = true
is_stack_op ora = true
is_stack_op eor = true
is_stack_op sft = true
is_stack_op _ = false

-- The widths of the operands, top first.
abbrev pub operands : Base → Bool → List Bool
operands inc s = s ∷ []
operands pop s = s ∷ []
operands dup s = s ∷ []
operands rot s = s ∷ s ∷ s ∷ []
operands sft s = false ∷ s ∷ []
operands _ s = s ∷ s ∷ []

-- The width of the results: comparisons leave a byte.
abbrev pub result_width : Base → Bool → Bool
result_width equ s = false
result_width neq s = false
result_width gth s = false
result_width lth s = false
result_width _ s = s

-- The results in stack notation, deepest first, from the operands, top first.
abbrev pub results : Base → Bool → List ℕ → List ℕ
results inc s (a ∷ []) = (a + 1) % word_size s ∷ []
results pop s (a ∷ []) = []
results nip s (b ∷ a ∷ []) = b ∷ []
results swp s (b ∷ a ∷ []) = b ∷ a ∷ []
results rot s (c ∷ b ∷ a ∷ []) = b ∷ c ∷ a ∷ []
results dup s (a ∷ []) = a ∷ a ∷ []
results ovr s (b ∷ a ∷ []) = a ∷ b ∷ a ∷ []
results equ s (b ∷ a ∷ []) = (if a == b then 1 else 0) ∷ []
results neq s (b ∷ a ∷ []) = (if a == b then 0 else 1) ∷ []
results gth s (b ∷ a ∷ []) = (if ltb b a then 1 else 0) ∷ []
results lth s (b ∷ a ∷ []) = (if ltb a b then 1 else 0) ∷ []
results add s (b ∷ a ∷ []) = (a + b) % word_size s ∷ []
results sub s (b ∷ a ∷ []) = (a + word_size s - b) % word_size s ∷ []
results mul s (b ∷ a ∷ []) = a * b % word_size s ∷ []
results div s (b ∷ a ∷ []) = (if b == 0 then 0 else a / b) ∷ []
results and s (b ∷ a ∷ []) = bit_and a b ∷ []
results ora s (b ∷ a ∷ []) = bit_or a b ∷ []
results eor s (b ∷ a ∷ []) = bit_xor a b ∷ []
results sft s (b ∷ a ∷ []) = a / 2 ^ (b % 16) * 2 ^ (b / 16) % word_size s ∷ []
results _ s _ = []

-- Words popped in turn from the bytes `taken ++ rest`.
abbrev pub taken : List Bool → List ℕ → List ℕ
taken (s ∷ ws) (x ∷ xs) = word_bytes s x ++ taken ws xs
taken _ _ = []

-- Words of one width pushed in turn.
abbrev pub pushed : Bool → List ℕ → List ℕ → List ℕ
pushed s [] rest = rest
pushed s (v ∷ vs) rest = pushed s vs (word_bytes s v ++ rest)

-- One operand for each width, each in range.
abbrev pub Fit : List Bool → List ℕ → Type 0
Fit [] [] = Unit
Fit (s ∷ ws) (x ∷ xs) = (x < word_size s) × Fit ws xs
Fit _ _ = ⊥
