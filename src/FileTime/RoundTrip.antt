-- ===== src/FileTime/RoundTrip.antt =====
-- A time that is packed and unpacked again.
use libfat.Base.{
  ℕ, Option, none, u16, Bool-cases, inl, inr, refl, ◌+◌, ◌-◌, ◌*◌, ◌/◌, ◌^◌, ◌≤◌, ◌<◌, ◌≡◌, false,
  some, ◌||◌, arith, bit_and, bit_or, bit_and_mask, bit_or_high, sub32, ltb, ◌∙◌, ap,
}
use libfat.FileTime.{Tm, get_time_from_rtc, get_date_from_rtc, to_tm}

packed_time :
    (h m s : ℕ)
    → h < 32
    → m < 64
    → s < 32
    → bit_or (bit_or (bit_and h 0x1F * 2 ^ 11) (bit_and m 0x3F * 2 ^ 5)) (bit_and s 0x1F)
      ≡ h * 2048 + m * 32 + s
packed_time h m s a b c =
    let e : bit_and h 0x1F ≡ h = bit_and_mask 5 h ∙ omega arith in
    let e' : bit_and m 0x3F ≡ m = bit_and_mask 6 m ∙ omega arith in
    let e'' : bit_and s 0x1F ≡ s = bit_and_mask 5 s ∙ omega arith in
    let one = bit_or_high 11 h (m * 2 ^ 5) (omega arith) in
    let two = bit_or_high 5 (h * 64 + m) s (omega arith) in
    let g : h * 2 ^ 11 + m * 2 ^ 5 ≡ (h * 64 + m) * 2 ^ 5 = omega arith in
    rw (e, e', e'', one, g, two) (omega arith)

packed_date :
    (y m d : ℕ)
    → y < 128
    → m < 16
    → d < 32
    → bit_or (bit_or (bit_and y 0x7F * 2 ^ 9) (bit_and m 0xF * 2 ^ 5)) (bit_and d 0x1F)
      ≡ y * 512 + m * 32 + d
packed_date y m d a b c =
    let e : bit_and y 0x7F ≡ y = bit_and_mask 7 y ∙ omega arith in
    let e' : bit_and m 0xF ≡ m = bit_and_mask 4 m ∙ omega arith in
    let e'' : bit_and d 0x1F ≡ d = bit_and_mask 5 d ∙ omega arith in
    let one = bit_or_high 9 y (m * 2 ^ 5) (omega arith) in
    let two = bit_or_high 5 (y * 16 + m) d (omega arith) in
    let g : y * 2 ^ 9 + m * 2 ^ 5 ≡ (y * 16 + m) * 2 ^ 5 = omega arith in
    rw (e, e', e'', one, g, two) (omega arith)

-- A time that the clock gives between the years 1980 and 2107 is, packed by
-- `_FAT_filetime_getTimeFromRTC` and `_FAT_filetime_getDateFromRTC`, what
-- `_FAT_filetime_to_time_t` unpacks, but for an odd second, which is rounded down.
pub to_tm-get_time_from_rtc :
    (t : Tm)
    → t.tm_hour ≤ 23
    → t.tm_min ≤ 59
    → t.tm_sec ≤ 59
    → t.tm_mon ≤ 11
    → 1 ≤ t.tm_mday
    → t.tm_mday ≤ 31
    → 80 ≤ t.tm_year
    → t.tm_year ≤ 207
    → let u = to_tm (get_time_from_rtc (some t)) (get_date_from_rtc (some t)) in
      (u.tm_hour ≡ t.tm_hour)
      × (u.tm_min ≡ t.tm_min)
      × (u.tm_sec ≡ t.tm_sec / 2 * 2)
      × (u.tm_mday ≡ t.tm_mday)
      × (u.tm_mon ≡ t.tm_mon)
      × (u.tm_year ≡ t.tm_year)
unfolding to_tm get_time_from_rtc get_date_from_rtc
to_tm-get_time_from_rtc t hour min sec mon day day' year year' =
    let a : (ltb 23 t.tm_hour || (ltb 59 t.tm_min || ltb 59 t.tm_sec)) ≡ false = ground arith in
    let b : (ltb 11 t.tm_mon || (ltb t.tm_mday 1 || ltb 31 t.tm_mday)) ≡ false = ground arith in
    let y : sub32 t.tm_year 80 ≡ t.tm_year - 80 = omega arith in
    let c =
      packed_time t.tm_hour t.tm_min (t.tm_sec / 2) (omega arith) (omega arith) (omega arith) in
    let d =
      packed_date (t.tm_year - 80) (t.tm_mon + 1) t.tm_mday (omega arith) (omega arith)
        (omega arith) in
    rw (a, b, y, c, d)
      (
        omega arith,
        bit_and_mask 6 _ ∙ omega arith,
        ap (λ n. n * 2) (bit_and_mask 5 _) ∙ omega arith,
        bit_and_mask 5 _ ∙ omega arith,
        ap (λ n. sub32 n 1) (bit_and_mask 4 _) ∙ omega arith,
        omega arith,
      )

-- Both results have 16 bits.
pub u16-get_time_from_rtc : (now : Option Tm) → u16 (get_time_from_rtc now) ≡ get_time_from_rtc now
unfolding get_time_from_rtc
u16-get_time_from_rtc none = refl
u16-get_time_from_rtc (some t) =
    elim (Bool-cases (ltb 23 t.tm_hour || (ltb 59 t.tm_min || ltb 59 t.tm_sec))) [
      | inl e ↦ rw e refl
      | inr e ↦ rw e (omega arith)
    ]

pub u16-get_date_from_rtc : (now : Option Tm) → u16 (get_date_from_rtc now) ≡ get_date_from_rtc now
unfolding get_date_from_rtc
u16-get_date_from_rtc none = refl
u16-get_date_from_rtc (some t) =
    elim (Bool-cases (ltb 11 t.tm_mon || (ltb t.tm_mday 1 || ltb 31 t.tm_mday))) [
      | inl e ↦ rw e refl
      | inr e ↦ rw e (omega arith)
    ]
