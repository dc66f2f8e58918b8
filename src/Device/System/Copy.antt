-- ===== src/Device/System/Copy.antt =====
-- src/devices/system.c: the copy loops as `memmove`.
use buxn.Prelude.{
  ℕ, zero, suc, ◌+◌, ◌-◌, ◌≤◌, ◌<◌, ◌≡◌, refl, ◌∙◌, ◌⊎◌, inl, inr, arith, ◌&&◌, ltb, leb,
  if◌then◌else◌, Bytes,
}
use buxn.Device.System.{copy_left, copy_right}

-- The bytes after a move of `length` bytes, all read before any is written.
abbrev pub memmove : ℕ → ℕ → ℕ → Bytes → Bytes
memmove src dst length memory q =
    if leb dst q && ltb q (dst + length) then memory (src + (q - dst)) else memory q

copy_left_from :
    (n i src dst : ℕ) (memory : Bytes) (q : ℕ)
    → (dst ≤ src) ⊎ (src + i + n ≤ dst + i)
    → copy_left n i src dst memory q ≡ memmove (src + i) (dst + i) n memory q
unfolding copy_left
copy_left_from zero i src dst memory q h = ground arith
copy_left_from (suc n) i src dst memory q (inl h) =
    copy_left_from n (i + 1) src dst _ q (inl h) ∙ ground arith
copy_left_from (suc n) i src dst memory q (inr h) =
    copy_left_from n (i + 1) src dst _ q (inr (omega arith)) ∙ ground arith

copy_right_from :
    (n i length src dst : ℕ) (memory : Bytes) (q : ℕ)
    → n + i ≡ length + 1
    → (src ≤ dst) ⊎ (dst + n ≤ src)
    → copy_right n i length src dst memory q ≡ memmove src dst n memory q
unfolding copy_right
copy_right_from zero i length src dst memory q e h = ground arith
copy_right_from (suc n) i length src dst memory q e (inl h) =
    copy_right_from n (i + 1) length src dst _ q (omega arith) (inl h) ∙ ground arith
copy_right_from (suc n) i length src dst memory q e (inr h) =
    copy_right_from n (i + 1) length src dst _ q (omega arith) (inr (omega arith)) ∙ ground arith

-- Upwards, when the target does not start inside the source, the copy is a move.
pub copy_left-memmove :
    (n src dst : ℕ) (memory : Bytes) (q : ℕ)
    → (dst ≤ src) ⊎ (src + n ≤ dst)
    → copy_left n 0 src dst memory q ≡ memmove src dst n memory q
copy_left-memmove n src dst memory q (inl h) =
    copy_left_from n 0 src dst memory q (inl h) ∙ ground arith
copy_left-memmove n src dst memory q (inr h) =
    copy_left_from n 0 src dst memory q (inr (omega arith)) ∙ ground arith

-- Downwards, when the source does not start inside the target, the copy is a move.
pub copy_right-memmove :
    (n src dst : ℕ) (memory : Bytes) (q : ℕ)
    → (src ≤ dst) ⊎ (dst + n ≤ src)
    → copy_right n 1 n src dst memory q ≡ memmove src dst n memory q
copy_right-memmove n src dst memory q h = copy_right_from n 1 n src dst memory q refl h

-- Neither loop writes outside the target.
pub copy_left_outside :
    (n i src dst : ℕ) (memory : Bytes) (q : ℕ)
    → dst + i + n ≤ q
    → copy_left n i src dst memory q ≡ memory q
unfolding copy_left
copy_left_outside zero i src dst memory q h = refl
copy_left_outside (suc n) i src dst memory q h =
    copy_left_outside n (i + 1) src dst _ q (omega arith) ∙ ground arith

pub copy_right_outside :
    (n i length src dst : ℕ) (memory : Bytes) (q : ℕ)
    → 0 < i
    → dst + length ≤ q
    → n + i ≡ length + 1
    → copy_right n i length src dst memory q ≡ memory q
unfolding copy_right
copy_right_outside zero i length src dst memory q p h e = refl
copy_right_outside (suc n) i length src dst memory q p h e =
    copy_right_outside n (i + 1) length src dst _ q (omega arith) h (omega arith) ∙ ground arith
