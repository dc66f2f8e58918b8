-- ===== src/Device/File/Lengths.antt =====
-- src/devices/file.c: the length that a transfer is cut to.
use Prim.Native.Nat.{min}
use buxn.Prelude.{◌-◌, ◌==◌, if◌then◌else◌, ◌≡◌, ◌<◌, ℕ, arith}
use buxn.Device.File.{clamp_length}

-- A transfer that does not start at 0 is cut to the bytes from its address to the end of the first
-- bank, and one that starts at 0 is cut to nothing.
pub clamp_length_lem :
    (length addr : ℕ)
    → addr < 65536
    → clamp_length length addr ≡ (if addr == 0 then 0 else min length (65536 - addr))
unfolding clamp_length
clamp_length_lem length addr h = ground arith
