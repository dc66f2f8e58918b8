-- ===== src/Vm/Spec/Reads.antt =====
-- A stack's bytes below its pointer as a list: the wrap-around of 8-bit pointers.
use buxn.Prelude.{
  ℕ, suc, ◌+◌, ◌-◌, ◌<◌, ◌≡◌, sym, Bool, true, false, arith, List, [], ◌∷◌, u8, Bytes, update,
}
use mathlib.Core.Path.{subst₂}

abbrev pub length : List ℕ → ℕ
length [] = 0
length (x ∷ xs) = suc (length xs)

-- The bytes below the pointer, top first, are those of the list.
abbrev pub Reads : Bytes → ℕ → List ℕ → Type 0
Reads bytes p [] = Unit
Reads bytes p (x ∷ xs) = (bytes (u8 (p + 255)) ≡ x) × Reads bytes (u8 (p + 255)) xs

pub Reads-cong :
    (bytes bytes' : Bytes) (p q : ℕ) (xs : List ℕ)
    → bytes' ≡ bytes
    → q ≡ p
    → Reads bytes p xs
    → Reads bytes' q xs
Reads-cong bytes bytes' p q xs e e' h = subst₂ (λ b t. Reads b t xs) (sym e) (sym e') h

-- A write at the pointer is out of sight of fewer than 256 bytes below it.
Reads-update :
    (bytes : Bytes) (p v d q : ℕ) (xs : List ℕ)
    → p < 256
    → d + length xs < 256
    → q ≡ u8 (p + 256 - d)
    → Reads bytes q xs
    → Reads (update bytes p v) q xs
Reads-update bytes p v d q [] hp hd e h = tt
Reads-update bytes p v d q (x ∷ xs) hp hd e (hx, h) = (
  ground arith,
  Reads-update bytes p v (d + 1) (u8 (q + 255)) xs hp (omega arith) (omega arith) h,
)

pub Reads-push1 :
    (bytes : Bytes) (p v : ℕ) (xs : List ℕ)
    → p < 256
    → length xs < 256
    → Reads bytes p xs
    → Reads (update bytes p v) (u8 (p + 1)) (v ∷ xs)
Reads-push1 bytes p v xs hp hd h =
    let e : u8 (u8 (p + 1) + 255) ≡ p = omega arith in
    rw e (ground arith, Reads-update bytes p v 0 p xs hp (omega arith) (omega arith) h)

-- The pointer below a word, and below several.
abbrev pub below_word : Bool → ℕ → ℕ
below_word false p = u8 (p + 255)
below_word true p = u8 (p + 254)

abbrev pub below : List Bool → ℕ → ℕ
below [] p = p
below (s ∷ ws) p = below ws (below_word s p)

pub below-lt : (ws : List Bool) (p : ℕ) → p < 256 → below ws p < 256
below-lt [] p h = h
below-lt (false ∷ ws) p h = below-lt ws (u8 (p + 255)) (omega arith)
below-lt (true ∷ ws) p h = below-lt ws (u8 (p + 254)) (omega arith)
