-- ===== src/Device/File/Ports.antt =====
-- src/devices/file.c: the output ports of the file device.
use mathlib.Core.Option
use buxn.Prelude.{
  length, ℕ, zero, suc, ◌+◌, ◌-◌, ◌==◌, ltb, leb, ◌&&◌, if◌then◌else◌, Bool, true, false, Option,
  none, some, List, [], ◌∷◌, u16, Bytes, update,
}
use buxn.Vm.State.{Vm, load2}
use buxn.Device.File.{
  File, FileHost, opened, invalid_type, regular, directory, read_mode, write_mode, append_mode,
  read_dir_size, page, read_path, clamp_length, format_stat, close, set_mode,
}

-- The bytes from `source` on, copied to `target` of another array.
unfoldable pub memcpy : ℕ → ℕ → ℕ → Bytes → Bytes → Bytes
memcpy target source length from to i =
    if leb target i && ltb i (target + length) then from (source + (i - target)) else to i

-- The bytes of a list, stored from an address on.
unfoldable pub store_list : List ℕ → ℕ → Bytes → Bytes
store_list [] at buf = buf
store_list (b ∷ bs) at buf = store_list bs (at + 1) (update buf at b)

module _ {W H : Type 0} where
  -- The loops of the ports 0x0d and 0x0f on a regular file, with the number of bytes so far: `move`
  -- is `fread` or `fwrite`. It gives none when the fuel is used up.
  unfoldable pub transfer :
      (Vm W → H → ℕ → ℕ → Vm W × ℕ) → ℕ → H → ℕ → ℕ → ℕ → Vm W → Option (Vm W × ℕ)
  transfer move zero file addr length total vm = if length == 0 then some (vm, total) else none
  transfer move (suc fuel) file addr length total vm =
      let (vm', n) = move vm file addr length in
      let rest =
        transfer move fuel file (u16 (addr + n)) (u16 (length + 65536 - n)) (u16 (total + n)) vm' in
      if length == 0 then some (vm, total) else if n == 0 then some (vm', total) else rest

  -- The copy of what is there of an entry: the bytes that were read, and the device and memory after.
  unfoldable pub drain : ℕ → ℕ → File H × Vm W → ℕ × File H × Vm W
  unfolding memcpy
  drain addr length (device, vm) =
      let available = u16 (device.read_dir_len + 65536 - device.read_dir_pos) in
      let n = if ltb length available then length else available in
      (
        n,
        record device { read_dir_pos = u16 (device.read_dir_pos + n) },
        record vm { memory = memcpy addr device.read_dir_pos n device.read_dir_buf vm.memory },
      )

module _ {W H : Type 0} (host : FileHost W H) where
  -- The next entry of a directory in `read_dir_buf`; the length of the entry is 0 if there is none or
  -- it does not fit.
  unfoldable pub refill : H → File H × Vm W → Bool × File H × Vm W
  unfolding format_stat store_list
  refill file (device, vm) =
      let (vm', entry) = host.readdir vm file in
      elim entry [
        | none ↦ (false, record device { read_dir_pos = 0; read_dir_len = 0 }, vm')
        | some (name, stat) ↦
            (let buf = format_stat 0 4 stat device.read_dir_buf in
              if ltb read_dir_size (4 + length name + 2)
              then (
                false,
                record device { read_dir_pos = 0; read_dir_len = 0; read_dir_buf = buf },
                vm',
              )
              else (
                true,
                record device {
                  read_dir_pos = 0;
                  read_dir_len = 4 + length name + 2;
                  read_dir_buf = update (store_list name 5 (update buf 4 32)) (5 + length name) 10;
                },
                vm',
              ))
      ]

  -- The entry that is being read, or the next one.
  unfoldable pub next_entry : H → File H × Vm W → Bool × File H × Vm W
  unfolding refill
  next_entry file (device, vm) =
      if leb device.read_dir_len device.read_dir_pos
      then refill file (device, vm)
      else (true, device, vm)

  -- The loop of the port 0x0d on a directory.
  unfoldable pub read_dir : ℕ → H → ℕ → ℕ → ℕ → File H × Vm W → Option ((File H × Vm W) × ℕ)
  unfolding next_entry drain
  read_dir zero file addr length total s = if length == 0 then some (s, total) else none
  read_dir (suc fuel) file addr length total (device, vm) =
      let (there, device₁, vm₁) = next_entry file (device, vm) in
      let (n, device₂, vm₂) = drain addr length (device₁, vm₁) in
      let rest =
        read_dir fuel file (u16 (addr + n)) (u16 (length + 65536 - n)) (u16 (total + n))
          (device₂, vm₂) in
      if length == 0
      then some ((device, vm), total)
      else if there
      then rest
      else some ((device₁, vm₁), total)

  abbrev succeed : ℕ → File H × Vm W → File H × Vm W
  succeed n (device, vm) = (record device { success = n }, vm)

  -- The port 0x05.
  unfoldable pub port_stat : ℕ → File H × Vm W → File H × Vm W
  unfolding load2 clamp_length format_stat read_path
  port_stat base (device, vm) =
      let addr = load2 (page vm base) 0x04 16 in
      let length = clamp_length (load2 (page vm base) 0x0a 16) addr in
      elim device.handle [
        | some _ ↦ (
          record device { success = length },
          record vm { memory = format_stat addr length device.stat vm.memory },
        )
        | none ↦ elim (read_path vm base) [
          | none ↦ (record device { success = 0 }, vm)
          | some path ↦
              (let (vm', stat) = host.stat_of vm path in
                (
                  record device { success = length },
                  record vm' { memory = format_stat addr length stat vm'.memory },
                ))
        ]
      ]

  -- The port 0x06.
  unfoldable pub port_delete : ℕ → File H × Vm W → File H × Vm W
  unfolding read_path
  port_delete base (device, vm) = elim (read_path vm base) [
    | none ↦ (record device { success = 0 }, vm)
    | some path ↦
        (let (vm', deleted) = host.delete vm path in
          (record device { success = if deleted then 1 else 0 }, vm'))
  ]

  -- The port 0x09.
  unfoldable pub port_name : File H × Vm W → File H × Vm W
  unfolding close
  port_name (device, vm) =
      (record device { handle = none }, close host device.handle device.stat.type vm)

  -- The port 0x0d, with a number of rounds for its loop.
  unfoldable pub port_read : ℕ → ℕ → File H × Vm W → Option (File H × Vm W)
  unfolding set_mode load2 clamp_length transfer read_dir
  port_read fuel base s =
      let (device, vm) = set_mode host read_mode base s in
      let addr = load2 (page vm base) 0x0c 16 in
      let length = clamp_length (load2 (page vm base) 0x0a 16) addr in
      elim device.handle [
        | some (opened file) ↦ elim device.stat.type [
          | directory ↦
              Option.map (λ (s', n). succeed n s') (read_dir fuel file addr length 0 (device, vm))
          | regular ↦
              Option.map (λ (vm', n). (record device { success = n }, vm'))
                (transfer host.fread fuel file addr length 0 vm)
          | invalid_type ↦ some (record device { success = 0 }, vm)
        ]
        | _ ↦ some (record device { success = 0 }, vm)
      ]

  -- The port 0x0f.
  unfoldable pub port_write : ℕ → ℕ → File H × Vm W → Option (File H × Vm W)
  unfolding set_mode load2 clamp_length transfer
  port_write fuel base s =
      let append = page s.1 base 0x07 in
      let (device, vm) = set_mode host (if append == 0 then write_mode else append_mode) base s in
      let addr = load2 (page vm base) 0x0e 16 in
      let length = clamp_length (load2 (page vm base) 0x0a 16) addr in
      elim device.handle [
        | some (opened file) ↦ elim device.stat.type [
          | regular ↦
              Option.map (λ (vm', n). (record device { success = n }, vm'))
                (transfer host.fwrite fuel file addr length 0 vm)
          | _ ↦ some (record device { success = 0 }, vm)
        ]
        | _ ↦ some (record device { success = 0 }, vm)
      ]

  -- `buxn_file_deo`
  unfoldable pub file_deo : ℕ → ℕ → ℕ → File H × Vm W → Option (File H × Vm W)
  unfolding port_stat port_delete port_name port_read port_write
  file_deo fuel base port s =
      if port == 0x05
      then some (port_stat base s)
      else if port == 0x06
      then some (port_delete base s)
      else if port == 0x09
      then some (port_name s)
      else if port == 0x0d
      then port_read fuel base s
      else if port == 0x0f
      then port_write fuel base s
      else some s
