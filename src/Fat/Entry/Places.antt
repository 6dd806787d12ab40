-- ===== src/Fat/Entry/Places.antt =====
-- The sector and the offset of an entry are those of its first byte.
use libfat.Base.{
  ℕ, ◌+◌, ◌*◌, ◌/◌, ◌%◌, ◌^◌, ◌≤◌, ◌<◌, ◌≡◌, arith, u32, leb, if◌then◌else◌, refl, ap, sym, suc,
}
use native.Mathlib.Nat.{div-add-mod', mod-lt, div-lt_iff_lt-mul, le-div_iff_mul-le}
use native.Mathlib.Decide.{dec_lt}
use libfat.Partition.State.{FsType, fs_unknown, fs_fat12, fs_fat16, fs_fat32, Partition}
use libfat.Fat.Entry.{Place, place12, place16, place32, next_place}
use libfat.Fat.Table.{first_byte, HasEntry, IsFat}

-- The place of byte `a` of the table.
abbrev pub byte_place : Partition → ℕ → Place
byte_place p a = record {
  sector = p.fat.fat_start + a / p.bytes_per_sector;
  offset = a % p.bytes_per_sector;
}

pub div_lt : (a w n : ℕ) → 0 < w → a < n * w → a / w < n
div_lt a w n h h' = (div-lt_iff_lt-mul h).1 h'

pub mod_bounds : (a w : ℕ) → 0 < w → (a ≡ a / w * w + a % w) × (a % w < w)
mod_bounds a w h = omega (arith, div-add-mod' a w, mod-lt a h)

-- A quotient and a remainder are the only ones.
pub div_mod_unique : (a q r w : ℕ) → a ≡ q * w + r → r < w → (a / w ≡ q) × (a % w ≡ r)
div_mod_unique a q r w e h =
    let pos : 0 < w = omega arith in
    let lo : q ≤ a / w = (le-div_iff_mul-le pos).1 (omega arith) in
    let hi : a / w < suc q = (div-lt_iff_lt-mul pos).1 (omega arith) in
    let same : a / w ≡ q = omega arith in
    let b = mod_bounds a w pos in (same, omega (arith, b, ap (λ (t : ℕ). t * w) same))

div_mod_suc :
    (a w : ℕ)
    → 0 < w
    → ((a + 1) / w ≡ (if leb w (a % w + 1) then a / w + 1 else a / w))
      × ((a + 1) % w ≡ (if leb w (a % w + 1) then 0 else a % w + 1))
div_mod_suc a w h = elim (dec_lt (a % w + 1) w) [
  | yes fits ↦
      let u = div_mod_unique (a + 1) (a / w) (a % w + 1) w (omega (arith, mod_bounds a w h)) fits in
      (ground (arith, u), ground (arith, u))
  | no full ↦
      let u = div_mod_unique (a + 1) (a / w + 1) 0 w (omega (arith, mod_bounds a w h)) h in
      (ground (arith, u), ground (arith, u))
]

half_mod : (c w : ℕ) → 0 < w → w % 2 ≡ 0 → c % (w / 2) * 2 ≡ c * 2 % w
half_mod c w h h' =
    let b = mod_bounds c (w / 2) (omega arith) in
    let two : 2 * (w / 2) ≡ w = omega arith in
    let e : c / (w / 2) * (2 * (w / 2)) ≡ c / (w / 2) * w = ap (λ (t : ℕ). c / (w / 2) * t) two in
    sym
      (div_mod_unique (c * 2) (c / (w / 2)) (c % (w / 2) * 2) w (omega (arith, b))
        (omega (arith, b))).1

quarter_mod : (c w : ℕ) → 0 < w → w % 4 ≡ 0 → c % (w / 4) * 4 ≡ c * 4 % w
quarter_mod c w h h' =
    let b = mod_bounds c (w / 4) (omega arith) in
    let four : 4 * (w / 4) ≡ w = omega arith in
    let e : c / (w / 4) * (4 * (w / 4)) ≡ c / (w / 4) * w = ap (λ (t : ℕ). c / (w / 4) * t) four in
    sym
      (div_mod_unique (c * 4) (c / (w / 4)) (c % (w / 4) * 4) w (omega (arith, b))
        (omega (arith, b))).1

-- Later bytes in the same sector.
pub byte_later : (a k w : ℕ) → a % w + k < w → ((a + k) / w ≡ a / w) × ((a + k) % w ≡ a % w + k)
byte_later a k w h =
    div_mod_unique (a + k) (a / w) (a % w + k) w (omega (arith, mod_bounds a w (omega arith))) h

first_byte_mono : (ty : FsType) (c d : ℕ) → c ≤ d → first_byte ty c ≤ first_byte ty d
first_byte_mono fs_unknown c d h = omega arith
first_byte_mono fs_fat12 c d h = omega arith
first_byte_mono fs_fat16 c d h = omega arith
first_byte_mono fs_fat32 c d h = omega arith

module _ (p : Partition) (size : ℕ) (fat : IsFat p size) where
  open p use {bytes_per_sector}

  pos : 0 < bytes_per_sector
  pos = omega (arith, fat.some_bytes)

  pub sector_in :
      (a : ℕ)
      → a < p.fat.sectors_per_fat * bytes_per_sector
      → p.fat.fat_start + a / bytes_per_sector < size
  sector_in a h = omega (arith, fat.region, div_lt a bytes_per_sector p.fat.sectors_per_fat pos h)

  place_at :
      (a sector offset : ℕ)
      → a < p.fat.sectors_per_fat * bytes_per_sector
      → sector ≡ u32 (p.fat.fat_start + a / bytes_per_sector)
      → offset ≡ a % bytes_per_sector
      → record { sector = sector; offset = offset } ≡ byte_place p a
  place_at a sector offset h e e' =
      let small = sector_in a h in
      let e'' : sector ≡ p.fat.fat_start + a / bytes_per_sector = omega (arith, fat.no_wrap) in
      rw (e'', e') refl

  pub next_place-byte_place :
      (a : ℕ)
      → a + 1 < p.fat.sectors_per_fat * bytes_per_sector
      → next_place p (byte_place p a) ≡ byte_place p (a + 1)
  unfolding next_place
  next_place-byte_place a h =
      let d = div_mod_suc a bytes_per_sector pos in
      let small = sector_in (a + 1) h in ground (arith, fat.no_wrap)

  pub place12-byte_place :
      (cluster : ℕ)
      → cluster < 2 ^ 28
      → cluster * 3 / 2 < p.fat.sectors_per_fat * bytes_per_sector
      → place12 p cluster ≡ byte_place p (cluster * 3 / 2)
  unfolding place12
  place12-byte_place cluster h h' =
      let e : u32 (cluster * 3) ≡ cluster * 3 = omega arith in
      rw e (place_at (cluster * 3 / 2) _ _ h' refl refl)

  pub place16-byte_place :
      (cluster : ℕ)
      → cluster < 2 ^ 28
      → cluster * 2 < p.fat.sectors_per_fat * bytes_per_sector
      → (place16 p cluster ≡ byte_place p (cluster * 2))
        × (cluster * 2 % bytes_per_sector + 2 ≤ bytes_per_sector)
  unfolding place16
  place16-byte_place cluster h h' =
      let e : u32 (cluster * 2) ≡ cluster * 2 = omega arith in
      let even : bytes_per_sector % 2 ≡ 0 = omega (arith, fat.four) in
      let m = half_mod cluster bytes_per_sector pos even in
      (
        rw e (place_at (cluster * 2) _ _ h' refl m),
        omega (
          arith,
          mod_bounds cluster (bytes_per_sector / 2) (omega (arith, fat.some_bytes)),
          fat.some_bytes,
        ),
      )

  pub place32-byte_place :
      (cluster : ℕ)
      → cluster < 2 ^ 28
      → cluster * 4 < p.fat.sectors_per_fat * bytes_per_sector
      → (place32 p cluster ≡ byte_place p (cluster * 4))
        × (cluster * 4 % bytes_per_sector + 4 ≤ bytes_per_sector)
  unfolding place32
  place32-byte_place cluster h h' =
      let e : u32 (cluster * 4) ≡ cluster * 4 = omega arith in
      let m = quarter_mod cluster bytes_per_sector pos fat.four in
      (
        rw e (place_at (cluster * 4) _ _ h' refl m),
        omega (
          arith,
          mod_bounds cluster (bytes_per_sector / 4) (omega (arith, fat.some_bytes)),
          fat.four,
          fat.some_bytes,
        ),
      )

  -- Every cluster of the partition has an entry.
  pub has_entry : (cluster : ℕ) → cluster ≤ p.fat.last_cluster → HasEntry p cluster
  has_entry cluster h = record {
    inside =
        omega
          (arith, first_byte_mono p.filesys_type cluster p.fat.last_cluster h, fat.entries.inside);
    small = omega (arith, fat.entries.small);
  }
