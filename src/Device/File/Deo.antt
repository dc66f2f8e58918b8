-- ===== src/Device/File/Deo.antt =====
-- src/devices/file.c: every write to a port of the file device returns.
use buxn.Prelude.{
  if◌then◌else◌, ◌+◌, ◌%◌, ◌<◌, AllBytes, Bytes, ◌∙◌, ◌⊎◌, none, Option-cases, Option, ◌≡◌, List, ℕ,
  refl, arith, ◌==◌, Bool-cases, inl, inr, some, ◌≤◌,
}
use buxn.Vm.State.{Vm, load2}
use buxn.Device.File.{
  write_mode, append_mode, read_mode, read_path, FileType, Handle, same_mode, File, FileHost,
  FileMode, read_dir_size, clamp_length, set_mode, page, opened, invalid_handle, regular, directory,
  invalid_type, leave_mode, open_path, close,
}
use buxn.Device.File.Ports.{port_read, port_write, file_deo, transfer}
use buxn.Device.File.Transfer.{Moves, transfer-Ended}
use buxn.Device.File.Ends.{read_dir-ends}

-- What the device relies on: the functions that open, close and look up files leave the ports alone,
-- and a transfer moves no more than it is asked for.
pub record FileHostIsValid {W H : Type 0} (host : FileHost W H) : Type 0 where
  pub fopen :
      (vm : Vm W) (path : List ℕ) (mode : FileMode) → (host.fopen vm path mode).0.device ≡ vm.device
  pub fclose : (vm : Vm W) (h : H) → (host.fclose vm h).device ≡ vm.device
  pub opendir : (vm : Vm W) (path : List ℕ) → (host.opendir vm path).0.device ≡ vm.device
  pub closedir : (vm : Vm W) (h : H) → (host.closedir vm h).device ≡ vm.device
  pub stat_of : (vm : Vm W) (path : List ℕ) → (host.stat_of vm path).0.device ≡ vm.device
  pub fread : Moves host.fread
  pub fwrite : Moves host.fwrite

FileType-cases : (t : FileType) → (t ≡ regular) ⊎ ((t ≡ directory) ⊎ (t ≡ invalid_type))
FileType-cases regular = inl refl
FileType-cases directory = inr (inl refl)
FileType-cases invalid_type = inr (inr refl)

module _ {W H : Type 0} (host : FileHost W H) (valid : FileHostIsValid host) where
  -- The ports and the entry of a directory that is being read are as before.
  abbrev Same : File H × Vm W → File H × Vm W → Type 0
  Same (device, vm) (device', vm') =
      (vm'.device ≡ vm.device) × (device'.read_dir_len ≡ device.read_dir_len)

  close-device :
      (h : Option (Handle H)) (type : FileType) (vm : Vm W)
      → (close host h type vm).device ≡ vm.device
  unfolding close
  close-device (some (opened h)) regular vm = valid.fclose vm h
  close-device (some (opened h)) directory vm = valid.closedir vm h
  close-device (some (opened h)) invalid_type vm = refl
  close-device (some invalid_handle) type vm = refl
  close-device none type vm = refl

  leave_mode-Same : (mode : FileMode) (s : File H × Vm W) → Same s (leave_mode host mode s)
  unfolding leave_mode
  leave_mode-Same mode (device, vm) = elim (Option-cases device.handle) [
    | inl e ↦ rw (leave_mode, e) (refl, refl)
    | inr (h, e) ↦ elim (Bool-cases (same_mode device.mode mode)) [
      | inl m ↦ rw (leave_mode, e, m) (refl, refl)
      | inr m ↦ rw (leave_mode, e, m) (close-device (some h) device.stat.type vm, refl)
    ]
  ]

  open_path-Same :
      (mode : FileMode) (path : List ℕ) (device : File H) (vm : Vm W)
      → Same (device, vm) (open_path host mode path device vm)
  unfolding open_path
  open_path-Same mode path device vm =
      let vm₁ = (host.stat_of vm path).0 in
      let e = valid.stat_of vm path in
      elim (FileType-cases (host.stat_of vm path).1.type) [
        | inl t ↦ rw (open_path, t) (valid.fopen vm₁ path mode ∙ e, refl)
        | inr (inl t) ↦ rw (open_path, t) (valid.opendir vm₁ path ∙ e, refl)
        | inr (inr t) ↦ elim (Bool-cases (same_mode mode read_mode)) [
          | inl m ↦ rw (open_path, t, m) (e, refl)
          | inr m ↦ rw (open_path, t, m) (valid.fopen vm₁ path mode ∙ e, refl)
        ]
      ]

  set_mode-Same :
      (mode : FileMode) (base : ℕ) (s : File H × Vm W) → Same s (set_mode host mode base s)
  unfolding set_mode
  set_mode-Same mode base s =
      let s₁ = leave_mode host mode s in
      let (d, l) = leave_mode-Same mode s in
      elim (Option-cases s₁.0.handle) [
        | inr (h, e) ↦ rw (set_mode, e) (d, l)
        | inl e ↦ elim (Option-cases (read_path s₁.1 base)) [
          | inl p ↦ rw (set_mode, e, p) (d, l)
          | inr (path, p) ↦
              (let (d', l') = open_path-Same mode path s₁.0 s₁.1 in
                rw (set_mode, e, p) (d' ∙ d, l' ∙ l))
        ]
      ]

clamp_length-lt : (length addr : ℕ) → clamp_length length addr < 65536
unfolding clamp_length
clamp_length-lt length addr = ground arith

clamp_length-fits : (length addr : ℕ) → addr < 65536 → addr + clamp_length length addr ≤ 65536
unfolding clamp_length
clamp_length-fits length addr h = ground arith

load2-lt : (mem : Bytes) (at size : ℕ) → AllBytes mem → load2 mem at size < 65536
unfolding load2
load2-lt mem at size h =
    let hi = h (at % size) in let lo = h ((at + 1) % size) in omega (arith, hi, lo)

page-load2-lt :
    {W : Type 0} (vm : Vm W) (base at : ℕ) → AllBytes vm.device → load2 (page vm base) at 16 < 65536
page-load2-lt vm base at h = load2-lt (page vm base) at 16 (λ i. h (base + i))

module _ {W H : Type 0} (host : FileHost W H) (valid : FileHostIsValid host) (fuel base : ℕ)
    (enough : 65535 ≤ fuel) where
  transfer-ends :
      (move : Vm W → H → ℕ → ℕ → Vm W × ℕ)
      → Moves move
      → (file : H) (addr length : ℕ) (vm : Vm W) → addr < 65536
      → (r : Vm W × ℕ) × (transfer move fuel file addr (clamp_length length addr) 0 vm ≡ some r)
  transfer-ends move moves file addr length vm lt =
      let small = clamp_length-lt length addr in
      let (vm', n, e, _, _, _, _) =
        transfer-Ended move moves file fuel addr (clamp_length length addr) 0 vm (omega arith)
          (clamp_length-fits length addr lt) (omega (arith, small)) in
      ((vm', n), e)

  port_read-ends :
      (s : File H × Vm W)
      → AllBytes s.1.device
      → s.0.read_dir_len ≤ read_dir_size
      → (r : File H × Vm W) × (port_read host fuel base s ≡ some r)
  unfolding port_read
  port_read-ends s bytes len =
      let s₁ = set_mode host read_mode base s in
      let (d, l) = set_mode-Same host valid read_mode base s in
      let addr = load2 (page s₁.1 base) 0x0c 16 in
      let size = load2 (page s₁.1 base) 0x0a 16 in
      let lt : addr < 65536 = page-load2-lt s₁.1 base 0x0c (rw d bytes) in
      elim (Option-cases s₁.0.handle) [
        | inl e ↦ rw (port_read, e) (_, refl)
        | inr (invalid_handle, e) ↦ rw (port_read, e) (_, refl)
        | inr (opened file, e) ↦ elim (FileType-cases s₁.0.stat.type) [
          | inl t ↦
              (let (r, q) = transfer-ends host.fread valid.fread file addr size s₁.1 lt in
                rw (port_read, e, t, q) (_, refl))
          | inr (inl t) ↦
              (let (r, q) =
                  read_dir-ends host file fuel addr (clamp_length size addr) 0 s₁.0 s₁.1
                    (omega (arith, clamp_length-lt size addr)) (clamp_length-lt size addr)
                    (rw l len) in
                rw (port_read, e, t, q) (_, refl))
          | inr (inr t) ↦ rw (port_read, e, t) (_, refl)
        ]
      ]

  port_write-ends :
      (s : File H × Vm W)
      → AllBytes s.1.device
      → (r : File H × Vm W) × (port_write host fuel base s ≡ some r)
  unfolding port_write
  port_write-ends s bytes =
      let mode = if page s.1 base 0x07 == 0 then write_mode else append_mode in
      let s₁ = set_mode host mode base s in
      let (d, l) = set_mode-Same host valid mode base s in
      let addr = load2 (page s₁.1 base) 0x0e 16 in
      let size = load2 (page s₁.1 base) 0x0a 16 in
      let lt : addr < 65536 = page-load2-lt s₁.1 base 0x0e (rw d bytes) in
      elim (Option-cases s₁.0.handle) [
        | inl e ↦ rw (port_write, e) (_, refl)
        | inr (invalid_handle, e) ↦ rw (port_write, e) (_, refl)
        | inr (opened file, e) ↦ elim (FileType-cases s₁.0.stat.type) [
          | inl t ↦
              (let (r, q) = transfer-ends host.fwrite valid.fwrite file addr size s₁.1 lt in
                rw (port_write, e, t, q) (_, refl))
          | inr (inl t) ↦ rw (port_write, e, t) (_, refl)
          | inr (inr t) ↦ rw (port_write, e, t) (_, refl)
        ]
      ]

  -- A write to any port of the file device returns, if the ports hold bytes, the entry of a directory
  -- fits its buffer, and the host leaves the ports alone and moves no more than it is asked for;
  -- 65535 rounds for each loop are enough.
  pub file_deo-ends :
      (port : ℕ) (s : File H × Vm W)
      → AllBytes s.1.device
      → s.0.read_dir_len ≤ read_dir_size
      → (r : File H × Vm W) × (file_deo host fuel base port s ≡ some r)
  unfolding file_deo
  file_deo-ends port s bytes len = elim (Bool-cases (port == 0x05)) [
    | inl e ↦ rw (file_deo, e) (_, refl)
    | inr e₅ ↦ elim (Bool-cases (port == 0x06)) [
      | inl e ↦ rw (file_deo, e₅, e) (_, refl)
      | inr e₆ ↦ elim (Bool-cases (port == 0x09)) [
        | inl e ↦ rw (file_deo, e₅, e₆, e) (_, refl)
        | inr e₉ ↦ elim (Bool-cases (port == 0x0d)) [
          | inl e ↦ rw (file_deo, e₅, e₆, e₉, e) (port_read-ends s bytes len)
          | inr e₁₃ ↦ elim (Bool-cases (port == 0x0f)) [
            | inl e ↦ rw (file_deo, e₅, e₆, e₉, e₁₃, e) (port_write-ends s bytes)
            | inr e ↦ rw (file_deo, e₅, e₆, e₉, e₁₃, e) (s, refl)
          ]
        ]
      ]
    ]
  ]
