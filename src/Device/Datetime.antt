-- ===== src/Device/Datetime.antt =====
-- src/devices/datetime.c: the clock ports.
use buxn.Prelude.{ℕ, ◌+◌, ◌/◌, Option, none, some, ◌==◌, if◌then◌else◌, u8}
use buxn.Vm.State.{Vm}

-- The fields of `struct tm` that the device reads, for a year from 1900 on; `tm_isdst` is the bit
-- pattern of its `int`.
pub record Tm : Type 0 where
  pub tm_year : ℕ
  pub tm_mon : ℕ
  pub tm_mday : ℕ
  pub tm_hour : ℕ
  pub tm_min : ℕ
  pub tm_sec : ℕ
  pub tm_wday : ℕ
  pub tm_yday : ℕ
  pub tm_isdst : ℕ

abbrev zero_tm : Tm
zero_tm = record {
  tm_year = 0;
  tm_mon = 0;
  tm_mday = 0;
  tm_hour = 0;
  tm_min = 0;
  tm_sec = 0;
  tm_wday = 0;
  tm_yday = 0;
  tm_isdst = 0;
}

abbrev or_zero : Option Tm → Tm
or_zero none = zero_tm
or_zero (some t) = t

-- `buxn_datetime_dei`, with the result of `localtime`.
unfoldable pub datetime_dei : {W : Type 0} → Option Tm → Vm W → ℕ → ℕ
datetime_dei now vm addr =
    let t = or_zero now in
    if addr == 0xc0
    then u8 ((t.tm_year + 1900) / 256)
    else if addr == 0xc1
    then u8 (t.tm_year + 1900)
    else if addr == 0xc2
    then u8 t.tm_mon
    else if addr == 0xc3
    then u8 t.tm_mday
    else if addr == 0xc4
    then u8 t.tm_hour
    else if addr == 0xc5
    then u8 t.tm_min
    else if addr == 0xc6
    then u8 t.tm_sec
    else if addr == 0xc7
    then u8 t.tm_wday
    else if addr == 0xc8
    then u8 (t.tm_yday / 256)
    else if addr == 0xc9
    then u8 t.tm_yday
    else if addr == 0xca
    then u8 t.tm_isdst
    else vm.device addr
