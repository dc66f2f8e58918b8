-- ===== src/Prelude/Maps.antt =====
-- Byte arrays as functions from an index.
use Prim.Native.Nat.{ℕ, ◌<◌}
use mathlib.Core.Path.{◌≡◌, fun_ext}
use mathlib.Core.Logic.{◌≢◌}
use native.Mathlib.Omega.{arith}
use buxn.Prelude.Tests.{◌==◌, if◌then◌else◌}

abbrev pub Bytes : Type 0
Bytes = ℕ → ℕ

-- `f[a] = v`
abbrev pub update : Bytes → ℕ → ℕ → Bytes
update f a v q = if q == a then v else f q

abbrev pub AllBytes : Bytes → Type 0
AllBytes f = (i : ℕ) → f i < 256

pub AllBytes-update : (f : Bytes) (a v : ℕ) → AllBytes f → v < 256 → AllBytes (update f a v)
AllBytes-update f a v h hv i = ground (arith, h i)

pub update_self : (f : Bytes) (a v : ℕ) → update f a v a ≡ v
update_self f a v = ground arith

pub update_ne : (f : Bytes) (a v q : ℕ) → q ≢ a → update f a v q ≡ f q
update_ne f a v q h = ground arith

pub update-update : (f : Bytes) (a v w : ℕ) → update (update f a v) a w ≡ update f a w
update-update f a v w = fun_ext λ q. ground arith
