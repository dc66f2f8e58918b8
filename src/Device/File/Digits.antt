-- ===== src/Device/File/Digits.antt =====
-- src/devices/file.c: a size is written in hexadecimal.
use buxn.Prelude.{
  ap, update, ◌<◌, ltb, if◌then◌else◌, ◌%◌, ◌∙◌, ◌/◌, ◌-◌, ◌+◌, ◌≡◌, ◌*◌, ◌≤◌, Bytes, ℕ, zero, suc,
  refl, arith,
}
use buxn.Device.File.{regular, hex_char, hex_digits, format_stat}

-- What a character stands for as a digit.
abbrev pub digit : ℕ → ℕ
digit c = if ltb c 58 then c - 48 else c - 87

-- The number that `len` characters from `start` on stand for, the highest digit first.
abbrev pub number : ℕ → ℕ → Bytes → ℕ
number zero start buf = 0
number (suc len) start buf = 16 * number len start buf + digit (buf (start + len))

hex_digits-above :
    (len end size : ℕ) (buf : Bytes) (q : ℕ)
    → len ≤ end
    → end ≤ q
    → (hex_digits len end size buf).0 q ≡ buf q
unfolding hex_digits
hex_digits-above zero end size buf q le h = refl
hex_digits-above (suc len) end size buf q le h =
    hex_digits-above len (end - 1) (size / 16) _ q (omega arith) (omega arith) ∙ ground arith

digit-hex_char : (size : ℕ) → digit (hex_char size) ≡ size % 16
unfolding hex_char
digit-hex_char size = ground arith

-- The number of sizes that have `len` digits at most.
abbrev pub sizes : ℕ → ℕ
sizes zero = 1
sizes (suc len) = 16 * sizes len

hex_digits-suc :
    (len end end' size : ℕ) (buf : Bytes)
    → end' ≡ suc end
    → hex_digits (suc len) end' size buf
      ≡ hex_digits len end (size / 16) (update buf end (hex_char size))
unfolding hex_digits
hex_digits-suc len end end' size buf e =
    let e' : end' - 1 ≡ end = omega arith in
    ap (λ x. hex_digits len x (size / 16) (update buf x (hex_char size))) e'

hex_digits-zero : (end size : ℕ) (buf : Bytes) → hex_digits 0 end size buf ≡ (buf, size)
unfolding hex_digits
hex_digits-zero end size buf = refl

-- The digits and what is left make up the size.
number-hex_digits :
    (len start size : ℕ) (buf : Bytes)
    → number len start (hex_digits len (start + len) size buf).0
        + sizes len * (hex_digits len (start + len) size buf).1
      ≡ size
number-hex_digits zero start size buf =
    let e = hex_digits-zero (start + 0) size buf in rw e (omega arith)
number-hex_digits (suc len) start size buf =
    let e : start + suc len ≡ suc (start + len) = omega arith in
    let step = hex_digits-suc len (start + len) (start + suc len) size buf e in
    let buf' = update buf (start + len) (hex_char size) in
    let rec = number-hex_digits len start (size / 16) buf' in
    let above =
      hex_digits-above len (start + len) (size / 16) buf' (start + len) (omega arith)
        (omega arith) in
    rw (step, above) (ground (arith, rec, digit-hex_char size))

multiple-zero : (p r size n : ℕ) → n + p * r ≡ size → size < p → r ≡ 0
multiple-zero p zero size n e h = refl
multiple-zero p (suc r) size n e h = absurd (ground arith)

-- A size that fits into its digits is the number that they stand for.
pub number-format_stat :
    (start len size : ℕ) (buf : Bytes)
    → size < sizes len
    → number len start (format_stat start len (record { type = regular; size = size }) buf) ≡ size
unfolding format_stat
number-format_stat start len size buf h =
    let e = number-hex_digits len start size buf in
    let z = multiple-zero (sizes len) _ size _ e h in rw z (ground arith)
