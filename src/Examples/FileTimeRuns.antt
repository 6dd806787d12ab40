-- ===== src/Examples/FileTimeRuns.antt =====
-- The first of August 2009, 13:37:41.
use libfat.Base.{◌≡◌, some, arith}
use libfat.FileTime.{Tm, get_time_from_rtc, get_date_from_rtc, to_tm}
use libfat.FileTime.RoundTrip.{to_tm-get_time_from_rtc}

abbrev afternoon : Tm
afternoon = record {
  tm_sec = 41;
  tm_min = 37;
  tm_hour = 13;
  tm_mday = 1;
  tm_mon = 7;
  tm_year = 109;
}

file_time_example :
    let u = to_tm (get_time_from_rtc (some afternoon)) (get_date_from_rtc (some afternoon)) in
    (u.tm_hour ≡ 13)
    × (u.tm_min ≡ 37)
    × (u.tm_sec ≡ 40)
    × (u.tm_mday ≡ 1)
    × (u.tm_mon ≡ 7)
    × (u.tm_year ≡ 109)
file_time_example =
    to_tm-get_time_from_rtc afternoon (omega arith) (omega arith) (omega arith) (omega arith)
      (omega arith) (omega arith) (omega arith) (omega arith)
