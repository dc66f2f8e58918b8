-- ===== src/Asm/Number/Bounds.antt =====
-- src/asm/asm.c: the numbers that are read fit their bytes.
use Prim.Native.String.{String}
use buxn.Prelude.{
  ◌⊎◌, ℕ, zero, suc, ◌+◌, ◌-◌, ◌*◌, ◌/◌, ◌%◌, ◌^◌, ◌≤◌, ◌<◌, ◌≡◌, refl, ap, true, false, Option,
  none, some, [], ◌∷◌, arith, ltb, leb, ◌==◌, if◌then◌else◌, Bool-cases, inl, inr, length,
}
use buxn.Asm.Text.{second_plus, Text, is_digit, is_hex_letter}
use buxn.Asm.Ref.{write_digits, hex_digit_char}
use native.Mathlib.Numerals.{unary_clauses}
use buxn.Asm.Number.{
  parse_number, parse_hex, add_digit, invalid, number, hex_sum, decimal_loop, Parsed, hex_digit,
}

-- A number of one byte or of two.
abbrev pub Sized : Parsed → Type 0
Sized (invalid message) = Unit {0}
Sized (number value num_bytes) =
    ((num_bytes ≡ 1) × (value < 256)) ⊎ ((num_bytes ≡ 2) × (value < 65536))

abbrev Below : Option ℕ → ℕ → Type 0
Below none k = Unit {0}
Below (some n) k = n < k

digit_range : (ch : ℕ) → is_digit ch ≡ true → ch - b'0' < 16
unfolding is_digit
digit_range ch h = ground (arith, h)

letter_range : (ch : ℕ) → is_hex_letter ch ≡ true → ch - b'a' + 10 < 16
unfolding is_hex_letter
letter_range ch h = ground (arith, h)

hex_digit-Below : (ch : ℕ) → Below (hex_digit ch) 16
unfolding hex_digit
hex_digit-Below ch = elim (Bool-cases (is_digit ch)) [
  | inl e ↦ rw e (digit_range ch e)
  | inr e ↦ elim (Bool-cases (is_hex_letter ch)) [
    | inl f ↦ rw (e, f) (letter_range ch f)
    | inr f ↦ rw (e, f) tt
  ]
]

mul_below : (d p n : ℕ) → d < 16 → n < p → d * p + n < 16 * p
mul_below d p n hd hn =
    let e : 15 ≡ d + (15 - d) = omega (arith, hd) in omega (arith, ap (λ (t : ℕ). t * p) e, hn)

add_digit-Below :
    (digit : Option ℕ) (i : ℕ) (low : Option ℕ)
    → Below digit 16
    → Below low (16 ^ i)
    → Below (add_digit digit i low) (16 ^ suc i)
add_digit-Below none i low h k = tt
add_digit-Below (some d) i none h k = tt
add_digit-Below (some d) i (some n) h k =
    simp unary_clauses (omega (arith, mul_below d (16 ^ i) n h k))

hex_sum-Below : (s : Text) → Below (hex_sum s) (16 ^ length s)
unfolding hex_sum
hex_sum-Below [] = omega arith
hex_sum-Below (ch ∷ s) =
    add_digit-Below (hex_digit ch) (length s) (hex_sum s) (hex_digit-Below ch) (hex_sum-Below s)

decimal_loop-Sized :
    (s : Text) (limit num_bytes n : ℕ)
    → ((m : ℕ) → m ≤ limit → Sized (number m num_bytes))
    → n ≤ limit
    → Sized (decimal_loop limit s num_bytes n)
unfolding decimal_loop
decimal_loop-Sized [] limit num_bytes n h k = h n k
decimal_loop-Sized (c ∷ s) limit num_bytes n h k =
    let m = n * 10 + (c - b'0') in
    elim (Bool-cases (is_digit c)) [
      | inl e ↦ elim (Bool-cases (ltb limit m)) [
        | inl f ↦ rw (e, f) tt
        | inr f ↦ rw (e, f) (decimal_loop-Sized s limit num_bytes m h (ground (arith, f)))
      ]
      | inr e ↦ rw e tt
    ]

sum-Sized :
    (sum : Option ℕ) (digits : ℕ) (bad : String)
    → Below sum (16 ^ digits)
    → digits ≤ 4
    → Sized (elim sum [ none ↦ invalid bad | some n ↦ number n (if leb digits 2 then 1 else 2) ])
sum-Sized none digits bad h k = tt
sum-Sized (some n) zero bad h k = inl (refl, omega (arith, h))
sum-Sized (some n) (suc zero) bad h k = inl (refl, omega (arith, h))
sum-Sized (some n) (suc (suc zero)) bad h k = inl (refl, omega (arith, h))
sum-Sized (some n) (suc (suc (suc zero))) bad h k = inr (refl, omega (arith, h))
sum-Sized (some n) (suc (suc (suc (suc zero)))) bad h k = inr (refl, omega (arith, h))
sum-Sized (some n) (suc (suc (suc (suc (suc d))))) bad h k = absurd (ground (arith, k))

parse_hex-Sized : (s : Text) → Sized (parse_hex s)
unfolding parse_hex
parse_hex-Sized s = elim (Bool-cases (ltb 4 (length s))) [
  | inl e ↦ rw e tt
  | inr e ↦ rw e (sum-Sized (hex_sum s) (length s) _ (hex_sum-Below s) (ground (arith, e)))
]

second_plus-start : (s : Text) → ((second_plus s).0 ≡ 1) ⊎ ((second_plus s).0 ≡ 2)
second_plus-start [] = inl refl
second_plus-start (c ∷ s) = elim (Bool-cases (c == b'+')) [
  | inl e ↦ rw e (inr refl)
  | inr e ↦ rw e (inl refl)
]

-- Whatever the characters, a number that is read takes one byte and is below 256, or takes two and
-- is below 65536.
pub parse_number-Sized : (s : Text) → Sized (parse_number s)
unfolding parse_number
parse_number-Sized [] = tt
parse_number-Sized (c ∷ s) = elim (Bool-cases (c == b'+')) [
  | inr e ↦ rw e (parse_hex-Sized (c ∷ s))
  | inl e ↦ elim (second_plus-start s) [
    | inl f ↦
        rw (e, f)
          (decimal_loop-Sized (second_plus s).1 255 1 0 (λ m h. inl (refl, omega (arith, h)))
            (omega arith))
    | inr f ↦
        rw (e, f)
          (decimal_loop-Sized (second_plus s).1 65535 2 0 (λ m h. inr (refl, omega (arith, h)))
            (omega arith))
  ]
]

hex_digit-char : (d : ℕ) → d < 16 → hex_digit (hex_digit_char d) ≡ some d
unfolding hex_digit hex_digit_char is_digit is_hex_letter
hex_digit-char d h = ground (arith, h)

hex_digit_char-plus : (d : ℕ) → d < 16 → (hex_digit_char d == b'+') ≡ false
unfolding hex_digit_char
hex_digit_char-plus d h = ground (arith, h)

-- The four hexadecimal digits of a short.
abbrev pub short_digits : ℕ → Text
short_digits v = write_digits true (v / 4096 % 16 ∷ v / 256 % 16 ∷ v / 16 % 16 ∷ v % 16 ∷ [])

-- The four digits that the assembler writes for a short are read as this short, in two bytes.
pub parse_number-short_digits : (v : ℕ) → v < 65536 → parse_number (short_digits v) ≡ number v 2
unfolding write_digits parse_number parse_hex hex_sum
parse_number-short_digits v h =
    let d = λ (n : ℕ). hex_digit-char (v / n % 16) (omega arith) in
    let low = hex_digit-char (v % 16) (omega arith) in
    rw (hex_digit_char-plus (v / 4096 % 16) (omega arith))
      (rw (d 4096, d 256, d 16, low) (ap (λ n. number n 2) (omega arith)))
