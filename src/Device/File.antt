-- ===== src/Device/File.antt =====
-- src/devices/file.c, include/buxn/devices/file.h: the file device, but for its output ports.
pub mod Ports
pub mod Lengths
pub mod Digits
pub mod Transfer
pub mod Ends
pub mod Deo
pub mod Tests
use mathlib.Core.Option
use buxn.Prelude.{
  length, none, update, u8, ◌/◌, ltb, ◌||◌, false, ◌∷◌, ◌%◌, ◌-◌, leb, ◌==◌, true, [], some, ◌+◌,
  Option, Bool, Bytes, List, if◌then◌else◌, u16, ℕ, zero, suc, refl,
}
use buxn.Vm.State.{Vm, load2}
use buxn.Vm.Reset.{memset}

abbrev pub max_path : ℕ
max_path = 1024

-- `sizeof(read_dir_buf)`, `BUXN_FILE_MAX_NAME + 6`
abbrev pub read_dir_size : ℕ
read_dir_size = 262

-- `buxn_file_mode_t`
pub data FileMode : Type 0 where
  read_mode write_mode append_mode : FileMode

-- `buxn_file_type_t`
pub data FileType : Type 0 where
  invalid_type regular directory : FileType

-- `buxn_file_stat_t`
pub record FileStat : Type 0 where
  pub type : FileType
  pub size : ℕ

-- A `buxn_file_handle_t*` that is not NULL: the address of `BUXN_FILE_INVALID_HANDLE`, or one that
-- the host gave.
pub data Handle (H : Type 0) : Type 0 where
  invalid_handle : Handle H
  opened : H → Handle H

-- `buxn_file_t`; a handle that is NULL is none.
pub record File (H : Type 0) : Type 0 where
  pub handle : Option (Handle H)
  pub mode : FileMode
  pub stat : FileStat
  pub success : ℕ
  pub read_dir_pos : ℕ
  pub read_dir_len : ℕ
  pub read_dir_buf : Bytes

-- What the host provides. A buffer is a place in memory, given by its address, and its size.
pub record FileHost (W H : Type 0) : Type 0 where
  pub fopen : Vm W → List ℕ → FileMode → Vm W × Option H
  pub fclose : Vm W → H → Vm W
  pub fread : Vm W → H → ℕ → ℕ → Vm W × ℕ
  pub fwrite : Vm W → H → ℕ → ℕ → Vm W × ℕ
  pub opendir : Vm W → List ℕ → Vm W × Option H
  pub closedir : Vm W → H → Vm W
  pub readdir : Vm W → H → Vm W × Option (List ℕ × FileStat)
  pub delete : Vm W → List ℕ → Vm W × Bool
  pub stat_of : Vm W → List ℕ → Vm W × FileStat

-- The characters from an address on, up to a zero, at most `left` of them.
unfoldable pub read_chars : ℕ → ℕ → Bytes → List ℕ
read_chars zero addr memory = []
read_chars (suc left) addr memory =
    let rest = read_chars left (u16 (addr + 1)) memory in
    if memory addr == 0 then [] else memory addr ∷ rest

-- The device's page of ports.
abbrev pub page : {W : Type 0} → Vm W → ℕ → Bytes
page vm base i = vm.device (base + i)

-- `buxn_file_read_path`
unfoldable pub read_path : {W : Type 0} → Vm W → ℕ → Option (List ℕ)
unfolding read_chars load2
read_path vm base =
    let path = read_chars max_path (load2 (page vm base) 0x08 16) vm.memory in
    if leb max_path (length path) || length path == 0 then none else some path

-- `'0' + (size & 0xf)`, and `a` to `f` from ten on.
unfoldable pub hex_char : ℕ → ℕ
hex_char size = let c = 48 + size % 16 in if ltb 57 c then c + 39 else c

-- The digits of a size, the last of them in front of `end`; and what is left of the size.
unfoldable pub hex_digits : ℕ → ℕ → ℕ → Bytes → Bytes × ℕ
unfolding hex_char
hex_digits zero end size buf = (buf, size)
hex_digits (suc left) end size buf =
    hex_digits left (end - 1) (size / 16) (update buf (end - 1) (hex_char size))

-- `buxn_file_format_stat`, of `len` characters from `start` on.
unfoldable pub format_stat : ℕ → ℕ → FileStat → Bytes → Bytes
unfolding hex_digits memset
format_stat start len stat buf = elim stat.type [
  | invalid_type ↦ memset start 33 len buf
  | regular ↦
      (let (buf', size) = hex_digits len (start + len) stat.size buf in
        if size == 0 then buf' else memset start 63 len buf')
  | directory ↦ memset start 45 len buf
]

-- `buxn_file_clamp_length`: `max_len` is a `uint16_t`.
unfoldable pub clamp_length : ℕ → ℕ → ℕ
clamp_length length addr =
    let max_len = u16 (65536 - addr) in if ltb max_len length then max_len else length

-- `buxn_file_dei`
unfoldable pub file_dei : {W H : Type 0} → Vm W → File H → ℕ → ℕ → ℕ
file_dei vm device base port =
    if port == 0x02
    then device.success / 256
    else if port == 0x03
    then u8 device.success
    else page vm base port

abbrev same_mode : FileMode → FileMode → Bool
same_mode read_mode read_mode = true
same_mode write_mode write_mode = true
same_mode append_mode append_mode = true
same_mode _ _ = false

module _ {W H : Type 0} (host : FileHost W H) where
  -- The host closes what it opened, by the type of the file. The invalid handle goes with neither type.
  unfoldable pub close : Option (Handle H) → FileType → Vm W → Vm W
  close (some (opened h)) regular vm = host.fclose vm h
  close (some (opened h)) directory vm = host.closedir vm h
  close _ _ vm = vm

  -- The first part of `buxn_file_set_mode`: a file that is open in another mode is closed.
  unfoldable pub leave_mode : FileMode → File H × Vm W → File H × Vm W
  unfolding close
  leave_mode mode (device, vm) = elim device.handle [
    | none ↦ (device, vm)
    | some h ↦
        (if same_mode device.mode mode
          then (device, vm)
          else (record device { handle = none; success = 0 }, close (some h) device.stat.type vm))
  ]

  -- What the host opens for a mode; a missing file is one to write, or cannot be read.
  unfoldable pub open_path : FileMode → List ℕ → File H → Vm W → File H × Vm W
  open_path mode path device vm =
      let (vm₁, stat) = host.stat_of vm path in
      elim stat.type [
        | regular ↦
            (let (vm₂, h) = host.fopen vm₁ path mode in
              (record device { stat = stat; handle = Option.map opened h; mode = mode }, vm₂))
        | directory ↦
            (let (vm₂, h) = host.opendir vm₁ path in
              (record device { stat = stat; handle = Option.map opened h; mode = mode }, vm₂))
        | invalid_type ↦
            (if same_mode mode read_mode
              then (record device { stat = stat; handle = some invalid_handle; mode = mode }, vm₁)
              else let (vm₂, h) = host.fopen vm₁ path mode in
                (
                  record device {
                    stat = record stat { type = regular };
                    handle = Option.map opened h;
                    mode = mode;
                  },
                  vm₂,
                ))
      ]

  -- `buxn_file_set_mode`
  unfoldable pub set_mode : FileMode → ℕ → File H × Vm W → File H × Vm W
  unfolding leave_mode open_path read_path
  set_mode mode base s =
      let (device, vm) = leave_mode mode s in
      elim device.handle [
        | some _ ↦ (device, vm)
        | none ↦ elim (read_path vm base) [
          | none ↦ (device, vm)
          | some path ↦ open_path mode path device vm
        ]
      ]
