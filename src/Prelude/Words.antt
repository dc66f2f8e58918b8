-- ===== src/Prelude/Words.antt =====
-- The C conversions to the fixed widths, and the two bytes of a short.
use Prim.Native.Nat.{ℕ, ◌+◌, ◌*◌, ◌/◌, ◌%◌, ◌<◌}
use mathlib.Core.Path.{◌≡◌}
use native.Mathlib.Omega.{arith}

abbrev pub u8 : ℕ → ℕ
u8 n = n % 256

abbrev pub u16 : ℕ → ℕ
u16 n = n % 65536

abbrev pub u32 : ℕ → ℕ
u32 n = n % 4294967296

-- `((uint16_t)hi << 8) | lo` of two bytes.
abbrev pub short : ℕ → ℕ → ℕ
short hi lo = hi * 256 + lo

-- `(v >> 8) & 0xff` and `v & 0xff`.
abbrev pub hi_byte : ℕ → ℕ
hi_byte v = v / 256 % 256

abbrev pub lo_byte : ℕ → ℕ
lo_byte v = v % 256

pub short_bytes : (v : ℕ) → v < 65536 → short (hi_byte v) (lo_byte v) ≡ v
short_bytes v h = omega arith
