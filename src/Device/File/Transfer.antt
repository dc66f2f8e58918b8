-- ===== src/Device/File/Transfer.antt =====
-- src/devices/file.c: the loops that move bytes end, and stay in the range that was asked for.
use buxn.Prelude.{
  ◌==◌, inl, inr, ◌∙◌, ◌-◌, some, Bool-cases, u16, ◌⊎◌, ◌+◌, ◌≡◌, ◌≤◌, Option, ◌<◌, ℕ, zero, suc,
  refl, arith, ap, sym,
}
use buxn.Vm.State.{Vm}
use buxn.Device.File.Ports.{transfer}

-- The byte is not one of the `length` from `addr` on.
abbrev pub Outside : ℕ → ℕ → ℕ → Type 0
Outside addr length q = (q < addr) ⊎ (addr + length ≤ q)

module _ {W H : Type 0} where
  -- What `buxn_file_fread` and `buxn_file_fwrite` promise: no more bytes are moved than were asked
  -- for, and none is written elsewhere.
  pub record Moves (move : Vm W → H → ℕ → ℕ → Vm W × ℕ) : Type 0 where
    pub bound : (vm : Vm W) (file : H) (addr size : ℕ) → (move vm file addr size).1 ≤ size
    pub outside :
        (vm : Vm W) (file : H) (addr size q : ℕ)
        → Outside addr size q
        → (move vm file addr size).0.memory q ≡ vm.memory q

-- The rounds that a transfer asks of the host, in numbers without a bound: each of them asks for all
-- bytes that are left at the place behind the bytes moved so far. The next one follows unless no byte
-- was left or none was moved.
pub data Asked {W H : Type 0} (move : Vm W → H → ℕ → ℕ → Vm W × ℕ) (file : H) (vm' : Vm W) (m : ℕ)
    : ℕ → ℕ → ℕ → Vm W → Type 0 where
  all_moved :
      {addr length total : ℕ} {vm : Vm W}
      → length ≡ 0
      → vm ≡ vm'
      → total ≡ m
      → Asked move file vm' m addr length total vm
  none_moved :
      {addr length total : ℕ} {vm : Vm W}
      → 0 < length
      → move vm file addr length ≡ (vm', 0)
      → total ≡ m
      → Asked move file vm' m addr length total vm
  again :
      {addr length total : ℕ} {vm : Vm W}
      → 0 < length
      → 0 < (move vm file addr length).1
      → Asked move file vm' m
          (addr + (move vm file addr length).1)
          (length - (move vm file addr length).1)
          (total + (move vm file addr length).1)
          (move vm file addr length).0
      → Asked move file vm' m addr length total vm

-- A transfer returns after the rounds of `Asked`, its count is at most `total + length`, and other
-- bytes stay.
abbrev pub Ended :
    {W H : Type 0}
    → (Vm W → H → ℕ → ℕ → Vm W × ℕ)
    → H
    → ℕ
    → ℕ
    → ℕ
    → Vm W
    → Option (Vm W × ℕ)
    → Type 0
Ended {W = W} move file addr length total vm o =
    (vm' : Vm W) × (n : ℕ) × (o ≡ some (vm', n))
    × Asked move file vm' n addr length total vm
    × (total ≤ n)
    × (n ≤ total + length)
    × ((q : ℕ) → Outside addr length q → vm'.memory q ≡ vm.memory q)

later :
    (addr length n q : ℕ)
    → n ≤ length
    → addr + length ≤ 65536
    → Outside addr length q
    → Outside (u16 (addr + n)) (u16 (length + 65536 - n)) q
later addr length n q le fits (inl h) = elim (Bool-cases (addr + n == 65536)) [
  | inl e ↦ inr (ground arith)
  | inr e ↦ inl (ground arith)
]
later addr length n q le fits (inr h) = inr (ground arith)

-- The place of a transfer counts as long as bytes are left.
Asked-same :
    {W H : Type 0} {move : Vm W → H → ℕ → ℕ → Vm W × ℕ} {file : H} {vm' vm : Vm W}
    {m a l t a' l' t' : ℕ}
    → l ≡ l'
    → t ≡ t'
    → (0 < l → a ≡ a')
    → Asked move file vm' m a l t vm
    → Asked move file vm' m a' l' t' vm
Asked-same el et ea (all_moved z e e') = all_moved (ground arith) e (ground arith)
Asked-same el et ea (none_moved p e e') =
    let ea' = ea p in rw (sym ea', sym el, sym et) (none_moved p e e')
Asked-same el et ea (again p q r) = let ea' = ea p in rw (sym ea', sym el, sym et) (again p q r)

module _ {W H : Type 0} (move : Vm W → H → ℕ → ℕ → Vm W × ℕ) (moves : Moves move) (file : H) where
  Ended-later :
      (addr length total : ℕ) (vm : Vm W) (o : Option (Vm W × ℕ))
      → addr + length ≤ 65536
      → total + length < 65536
      → 0 < length
      → 0 < (move vm file addr length).1
      → Ended move file
          (u16 (addr + (move vm file addr length).1))
          (u16 (length + 65536 - (move vm file addr length).1))
          (u16 (total + (move vm file addr length).1))
          (move vm file addr length).0
          o
      → Ended move file addr length total vm o
  Ended-later addr length total vm o fits small some_left some_moved (vm', m, eq, r, ge, le, same) =
      let b = moves.bound vm file addr length in
      (
        vm',
        m,
        eq,
        again some_left some_moved (Asked-same (ground arith) (ground arith) (λ p. ground arith) r),
        ground arith,
        ground arith,
        λ q out.
            same q (later addr length (move vm file addr length).1 q b fits out)
            ∙ moves.outside vm file addr length q out,
      )

  -- For a host that moves at most the bytes it is asked for, to their place, a transfer within the
  -- address space, whose count fits 16 bits, returns within as many rounds as bytes were asked for.
  -- The host is asked again for all that is left, behind what was moved, until it moves nothing or
  -- all bytes are moved, and the machine and the count are those after the last round. At most the
  -- number of bytes asked for is added to the count, and no byte of memory outside the range changes.
  pub transfer-Ended :
      (fuel addr length total : ℕ) (vm : Vm W)
      → length ≤ fuel
      → addr + length ≤ 65536
      → total + length < 65536
      → Ended move file addr length total vm (transfer move fuel file addr length total vm)
  unfolding transfer
  transfer-Ended zero addr length total vm le fits small =
      (let z : length ≡ 0 = omega arith in
        (vm, total, rw z refl, all_moved z refl refl, omega arith, omega arith, λ q out. refl))
  transfer-Ended (suc fuel) addr length total vm le fits small =
      let n = (move vm file addr length).1 in
      let b = moves.bound vm file addr length in
      elim (Bool-cases (length == 0)) [
        | inl e ↦ rw e (
          vm,
          total,
          refl,
          all_moved (ground arith) refl refl,
          omega arith,
          omega arith,
          λ q out. refl,
        )
        | inr e ↦ elim (Bool-cases (n == 0)) [
          | inl z ↦
              rw (e, z)
                (
                  (move vm file addr length).0,
                  total,
                  refl,
                  none_moved (ground arith)
                      (ap (λ k. ((move vm file addr length).0, k)) (ground arith)) refl,
                  omega arith,
                  omega arith,
                  λ q out. moves.outside vm file addr length q out,
                )
          | inr nz ↦
              rw (e, nz)
                (Ended-later addr length total vm _ fits small (ground arith) (ground arith) (
                  transfer-Ended fuel (u16 (addr + n)) (u16 (length + 65536 - n)) (u16 (total + n))
                    (move vm file addr length).0 (ground arith) (ground arith) (ground arith)))
        ]
      ]
