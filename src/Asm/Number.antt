-- ===== src/Asm/Number.antt =====
-- src/asm/asm.c: the numbers, `buxn_asm_parse_number`.
pub mod Bounds
use buxn.Prelude.{
  ◌^◌, leb, ◌+◌, length, ◌-◌, ◌==◌, ◌*◌, ltb, if◌then◌else◌, ℕ, Bool, List, [], ◌∷◌, Option, none,
  some,
}
use buxn.Asm.Text.{is_hex_letter, skip_plus, is_digit, Text}
use Prim.Native.String.{String}

-- A number with the bytes that it takes, or the message of the error.
pub data Parsed : Type 0 where
  invalid : String → Parsed
  number : (value num_bytes : ℕ) → Parsed

-- The value of a hexadecimal digit.
unfoldable pub hex_digit : ℕ → Option ℕ
unfolding is_digit is_hex_letter
hex_digit ch =
    if is_digit ch
    then some (ch - b'0')
    else if is_hex_letter ch
    then some (ch - b'a' + 10)
    else none

-- `number |= digit << (i * 4)`, where the other digits left their bits free.
abbrev pub add_digit : Option ℕ → ℕ → Option ℕ → Option ℕ
add_digit (some digit) i (some n) = some (digit * 16 ^ i + n)
add_digit _ i _ = none

-- The sum of the digits, each shifted by the digits that follow it; their bits do not overlap.
unfoldable pub hex_sum : Text → Option ℕ
unfolding hex_digit
hex_sum [] = some 0
hex_sum (ch ∷ s) = add_digit (hex_digit ch) (length s) (hex_sum s)

unfoldable pub parse_hex : Text → Parsed
unfolding hex_sum
parse_hex s =
    if ltb 4 (length s) then invalid "Invalid number: Too many characters" else elim (hex_sum s) [
      | none ↦ invalid "Invalid number: Unexpected character found"
      | some n ↦ number n (if leb (length s) 2 then 1 else 2)
    ]

unfoldable pub decimal_loop : ℕ → Text → ℕ → ℕ → Parsed
unfolding is_digit
decimal_loop limit [] num_bytes n = number n num_bytes
decimal_loop limit (ch ∷ s) num_bytes n =
    let m = n * 10 + (ch - b'0') in
    let rest = decimal_loop limit s num_bytes m in
    if is_digit ch
    then (if ltb limit m then invalid "Invalid number: Too big" else rest)
    else invalid "Invalid number: Unexpected character found"

unfoldable pub parse_number : Text → Parsed
unfolding parse_hex decimal_loop
parse_number [] = invalid "Invalid number: Empty string"
parse_number (c ∷ s) =
    let start = skip_plus (c ∷ s) in
    if start.0 == 0
    then parse_hex (c ∷ s)
    else decimal_loop (if start.0 == 1 then 255 else 65535) start.1 start.0 0
