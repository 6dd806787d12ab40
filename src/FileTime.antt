-- ===== src/FileTime.antt =====
-- source/filetime.c, as it is built with USE_RTC_TIME.
pub mod RoundTrip
use libfat.Base.{
  ℕ, ◌+◌, ◌-◌, ◌*◌, ◌/◌, ◌%◌, ◌^◌, Bool, Option, none, some, ◌||◌, bit_and, bit_or, u16, sub32, ltb,
  if◌then◌else◌,
}

-- The fields of `struct tm` that the code uses. The clock gives no negative ones.
pub record Tm : Type 0 where
  pub tm_sec : ℕ
  pub tm_min : ℕ
  pub tm_hour : ℕ
  pub tm_mday : ℕ
  pub tm_mon : ℕ
  pub tm_year : ℕ

-- What `time` and `localtime_r` gave; `none` is a clock that cannot be read.
pub get_time_from_rtc : Option Tm → ℕ
get_time_from_rtc none = 0
get_time_from_rtc (some t) =
    if ltb 23 t.tm_hour || (ltb 59 t.tm_min || ltb 59 t.tm_sec)
    then 0
    else u16 (
        bit_or (bit_or (bit_and t.tm_hour 0x1F * 2 ^ 11) (bit_and t.tm_min 0x3F * 2 ^ 5))
          (bit_and (t.tm_sec / 2) 0x1F))

pub get_date_from_rtc : Option Tm → ℕ
get_date_from_rtc none = 0
get_date_from_rtc (some t) =
    if ltb 11 t.tm_mon || (ltb t.tm_mday 1 || ltb 31 t.tm_mday)
    then 0
    else u16 (
        bit_or
          (bit_or (bit_and (sub32 t.tm_year 80) 0x7F * 2 ^ 9) (bit_and (t.tm_mon + 1) 0xF * 2 ^ 5))
          (bit_and t.tm_mday 0x1F))

-- What `_FAT_filetime_to_time_t` hands to `mktime`; an `int` month of -1 is its 32 bits.
pub to_tm : ℕ → ℕ → Tm
to_tm t d = record {
  tm_sec = bit_and t 0x1F * 2;
  tm_min = bit_and (t / 2 ^ 5) 0x3F;
  tm_hour = t / 2 ^ 11;
  tm_mday = bit_and d 0x1F;
  tm_mon = sub32 (bit_and (d / 2 ^ 5) 0x0F) 1;
  tm_year = d / 2 ^ 9 + 80;
}
