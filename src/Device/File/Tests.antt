-- ===== src/Device/File/Tests.antt =====
-- src/devices/file.c: the file device at concrete inputs.
use Prim.Native.Nat.{min}
use buxn.Vm.State.{Vm, load2}
use buxn.Prelude.{
  update, [], ◌-◌, ◌∷◌, if◌then◌else◌, Option, true, ◌≡◌, ℕ, refl, arith, some, none, ◌==◌,
}
use buxn.Vm.Tests.{boot, at, at-AllBytes}
use buxn.Device.File.{File, FileHost, clamp_length, format_stat, regular, read_mode}
use buxn.Device.File.Transfer.{transfer-Ended, Moves, Ended}
use buxn.Device.File.Ports.{transfer, file_deo}
use buxn.Device.File.Digits.{number-format_stat, number}
use buxn.Device.File.Deo.{file_deo-ends, FileHostIsValid}
use buxn.Device.File.Lengths.{clamp_length_lem}

-- One file, whose bytes are all 42 and are read one at a time; what is written is dropped.
abbrev one_byte : Vm (Unit {0}) → Unit {0} → ℕ → ℕ → Vm (Unit {0}) × ℕ
one_byte vm file addr size =
    if size == 0 then (vm, 0) else (record vm { memory = update vm.memory addr 42 }, 1)

abbrev drop : Vm (Unit {0}) → Unit {0} → ℕ → ℕ → Vm (Unit {0}) × ℕ
drop vm file addr size = (vm, size)

abbrev disk : FileHost (Unit {0}) (Unit {0})
disk = record {
  fopen = λ vm path mode. (vm, some tt);
  fclose = λ vm file. vm;
  fread = one_byte;
  fwrite = drop;
  opendir = λ vm path. (vm, some tt);
  closedir = λ vm file. vm;
  readdir = λ vm file. (vm, none);
  delete = λ vm path. (vm, true);
  stat_of = λ vm path. (vm, record { type = regular; size = 3 });
}

one_byte-Moves : Moves one_byte
one_byte-Moves = record {
  bound = λ vm file addr size. ground arith;
  outside = λ vm file addr size q out. ground arith;
}

drop-Moves : Moves drop
drop-Moves = record {
  bound = λ vm file addr size. omega arith;
  outside = λ vm file addr size q out. refl;
}

disk-FileHostIsValid : FileHostIsValid disk
disk-FileHostIsValid = record {
  fopen = λ vm path mode. refl;
  fclose = λ vm file. refl;
  opendir = λ vm path. refl;
  closedir = λ vm file. refl;
  stat_of = λ vm path. refl;
  fread = one_byte-Moves;
  fwrite = drop-Moves;
}

-- The name at 0x0200 is "a"; the length is 3 and the address to read to is 0x0300.
abbrev reader : Vm (Unit {0})
reader = record (boot (at 0x200 (97 ∷ []))) { device = at 0xa8 (2 ∷ 0 ∷ 0 ∷ 3 ∷ 3 ∷ 0 ∷ []) }

abbrev closed : File (Unit {0})
closed = record {
  handle = none;
  mode = read_mode;
  stat = record { type = regular; size = 0 };
  success = 0;
  read_dir_pos = 0;
  read_dir_len = 0;
  read_dir_buf = λ _. 0;
}

file_deo-ends_example :
    (r : File (Unit {0}) × Vm (Unit {0})) × (file_deo disk 65535 0xa0 0x0d (closed, reader)
      ≡ some r)
file_deo-ends_example =
    file_deo-ends disk disk-FileHostIsValid 65535 0xa0 (omega arith) 0x0d (closed, reader)
      (at-AllBytes 0xa8 (2 ∷ 0 ∷ 0 ∷ 3 ∷ 3 ∷ 0 ∷ []) (omega arith)) (omega arith)

abbrev success_of : Option (File (Unit {0}) × Vm (Unit {0})) → Option (ℕ × ℕ)
success_of none = none
success_of (some (device, vm)) = some (device.success, vm.memory 0x302)

reads : success_of (file_deo disk 9 0xa0 0x0d (closed, reader)) ≡ some (3, 42)
unfolding file_deo load2
reads = refl

transfer-Ended_example :
    Ended one_byte tt 0x300 3 0 reader (transfer one_byte 3 tt 0x300 3 0 reader)
transfer-Ended_example =
    transfer-Ended one_byte one_byte-Moves tt 3 0x300 3 0 reader (omega arith) (omega arith)
      (omega arith)

number-format_stat_example :
    number 4 0x300 (format_stat 0x300 4 (record { type = regular; size = 0x1af }) (λ _. 0)) ≡ 0x1af
number-format_stat_example = number-format_stat 0x300 4 0x1af (λ _. 0) (omega arith)

clamp_length_lem_example :
    clamp_length 0x20 0xfff0 ≡ (if 0xfff0 == 0 then 0 else min 0x20 (65536 - 0xfff0))
clamp_length_lem_example = clamp_length_lem 0x20 0xfff0 (omega arith)
