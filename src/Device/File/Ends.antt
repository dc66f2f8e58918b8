-- ===== src/Device/File/Ends.antt =====
-- src/devices/file.c: every output port of the file device returns.
use buxn.Prelude.{
  length, ◌-◌, u16, ◌+◌, ltb, leb, ◌<◌, ◌≡◌, Option-cases, ◌≤◌, ℕ, zero, suc, refl, arith, ◌==◌,
  Bool-cases, inl, inr, Bool, true, some,
}
use buxn.Vm.State.{Vm}
use buxn.Device.File.{File, FileHost, read_dir_size}
use buxn.Device.File.Ports.{refill, next_entry, drain, read_dir}

module _ {W H : Type 0} (host : FileHost W H) (file : H) where
  -- The entry that is there has bytes left, and fits the buffer.
  Ready : Bool × File H × Vm W → Type 0
  Ready (there, device, vm) =
      (device.read_dir_len ≤ read_dir_size)
      × (there ≡ true → device.read_dir_pos < device.read_dir_len)

  -- Something is moved if something is asked for and there, and no more than that.
  Drained : ℕ → File H → ℕ × File H × Vm W → Type 0
  Drained length device (n, device', vm') =
      (n ≤ length)
      × (0 < length
          → device.read_dir_pos < device.read_dir_len
          → device.read_dir_len ≤ read_dir_size
          → 0 < n)
      × (device'.read_dir_len ≡ device.read_dir_len)

  refill-Ready : (device : File H) (vm : Vm W) → Ready (refill host file (device, vm))
  unfolding refill Ready
  refill-Ready device vm = elim (Option-cases (host.readdir vm file).1) [
    | inl e ↦ rw (refill, e) (omega arith, λ t. absurd (ground arith))
    | inr ((name, stat), e) ↦ elim (Bool-cases (ltb read_dir_size (4 + length name + 2))) [
      | inl l ↦ rw (refill, e, l) (omega arith, λ t. absurd (ground arith))
      | inr l ↦ rw (refill, e, l) (ground arith, λ t. omega arith)
    ]
  ]

  next_entry-Ready :
      (device : File H) (vm : Vm W)
      → device.read_dir_len ≤ read_dir_size
      → Ready (next_entry host file (device, vm))
  unfolding next_entry Ready
  next_entry-Ready device vm h = elim (Bool-cases (leb device.read_dir_len device.read_dir_pos)) [
    | inl e ↦ rw e (refill-Ready device vm)
    | inr e ↦ rw e (h, λ t. ground arith)
  ]

  drain-bounds :
      (addr length : ℕ) (device : File H) (vm : Vm W)
      → Drained length device (drain addr length (device, vm))
  unfolding drain Drained
  drain-bounds addr length device vm = (ground arith, λ nz lt le. ground arith, refl)

  pub read_dir-ends :
      (fuel addr length total : ℕ) (device : File H) (vm : Vm W)
      → length ≤ fuel
      → length < 65536
      → device.read_dir_len ≤ read_dir_size
      → (r : (File H × Vm W) × ℕ) × (read_dir host fuel file addr length total (device, vm)
          ≡ some r)
  unfolding read_dir Ready Drained
  read_dir-ends zero addr length total device vm le lt h =
      let z : length ≡ 0 = omega arith in (((device, vm), total), rw z refl)
  read_dir-ends (suc fuel) addr length total device vm le lt h =
      let next = next_entry host file (device, vm) in
      let ready = next_entry-Ready device vm h in
      let d = drain addr length (next.1, next.2) in
      let m = drain-bounds addr length next.1 next.2 in
      elim (Bool-cases (length == 0)) [
        | inl e ↦ rw e (_, refl)
        | inr e ↦ elim (Bool-cases next.0) [
          | inr out ↦ rw (e, out) (_, refl)
          | inl there ↦
              let pos = m.1 (ground arith) (ready.1 there) ready.0 in
              let progress : u16 (length + 65536 - d.0) ≤ fuel = omega (arith, m.0, pos) in
              rw (e, there)
                (read_dir-ends fuel (u16 (addr + d.0)) (u16 (length + 65536 - d.0))
                  (u16 (total + d.0)) d.1 d.2 (omega (arith, m)) (omega (arith, m))
                  (omega (arith, ready, m)))
        ]
      ]
