-- ===== src/Fat/Entry/Bytes.antt =====
-- Changing bytes of the table changes the number that one entry spells, and no other; also where
-- two entries of 12 bits share a byte.
use libfat.Base.{
  ℕ, ◌+◌, ◌-◌, ◌*◌, ◌/◌, ◌%◌, ◌^◌, ◌≤◌, ◌<◌, ◌≡◌, ◌≢◌, inl, inr, true, false, ◌&&◌, arith, ltb, leb,
  ◌==◌, if◌then◌else◌, refl, ap, ◌∙◌, Bool-cases,
}
use native.Mathlib.Decide.{ℕ_discrete}
use libfat.Cache.Invariant.{Sectors}
use libfat.Cache.Sector.Update.{in_row}
use libfat.Cache.Sector.Values.{put_value, byte_of}
use libfat.Partition.State.{fs_fat12, fs_fat16, fs_fat32, Partition}
use libfat.Fat.Table.{fat_byte, raw_entry}
use libfat.Fat.Entry.Places.{mod_bounds}

put_hit :
    (sectors : Sectors) (s o sector offset n v : ℕ)
    → s ≡ sector
    → (leb offset o && ltb o (offset + n)) ≡ true
    → put_value sectors sector offset n v s o ≡ byte_of v (o - offset)
put_hit sectors s o sector offset n v e h =
    let t : (s == sector) ≡ true = ground arith in rw (t, h) refl

put_miss :
    (sectors : Sectors) (s o sector offset n v : ℕ)
    → (s == sector && (leb offset o && ltb o (offset + n))) ≡ false
    → put_value sectors sector offset n v s o ≡ sectors s o
put_miss sectors s o sector offset n v h = rw h refl

-- `in_row` with the quotients and remainders put together again.
same_row :
    (w a b n k t o r : ℕ)
    → a ≡ t * w + r
    → b ≡ k * w + o
    → o < w
    → r + n ≤ w
    → (leb a b && ltb b (a + n)) ≡ (k == t && (leb r o && ltb o (r + n)))
same_row w a b n k t o r e e' h h' = rw (e, e') (in_row w k t o r n h h')

distance :
    (w a b n k t o r : ℕ)
    → a ≡ t * w + r
    → b ≡ k * w + o
    → (k == t && (leb r o && ltb o (r + n))) ≡ true
    → (k ≡ t) × (o - r ≡ b - a)
distance w a b n k t o r e e' h =
    let same : k ≡ t = ground arith in (same, omega (arith, ap (λ (x : ℕ). x * w) same))

-- A value written at byte `a` of the table, inside one sector.
pub fat_byte-put_value :
    (sectors : Sectors) (p : Partition) (a n v b : ℕ)
    → 0 < p.bytes_per_sector
    → a % p.bytes_per_sector + n ≤ p.bytes_per_sector
    → fat_byte
        (put_value sectors (p.fat.fat_start + a / p.bytes_per_sector) (a % p.bytes_per_sector) n v)
        p
        b
      ≡ (if leb a b && ltb b (a + n) then byte_of v (b - a) else fat_byte sectors p b)
fat_byte-put_value sectors p a n v b pos fits =
    let w = p.bytes_per_sector in
    let (e, lt) = mod_bounds a w pos in
    let (e', lt') = mod_bounds b w pos in
    let row = same_row w a b n (b / w) (a / w) (b % w) (a % w) e e' lt' fits in
    elim (Bool-cases (b / w == a / w && (leb (a % w) (b % w) && ltb (b % w) (a % w + n)))) [
      | inl t ↦
          let (same, d) = distance w a b n (b / w) (a / w) (b % w) (a % w) e e' t in
          rw (row, t)
            (put_hit sectors (p.fat.fat_start + b / p.bytes_per_sector) (b % p.bytes_per_sector)
                (p.fat.fat_start + a / p.bytes_per_sector) (a % p.bytes_per_sector) n v
                (ground (arith, same)) (ground arith)
              ∙ ap (byte_of v) d)
      | inr f ↦
          rw (row, f)
            (put_miss sectors (p.fat.fat_start + b / p.bytes_per_sector) (b % p.bytes_per_sector)
              (p.fat.fat_start + a / p.bytes_per_sector) (a % p.bytes_per_sector) n v
              (ground arith))
    ]

-- The three widths. `b'` is the table after the write of `v` for cluster `c`.
pub raw16-write :
    (b b' : ℕ → ℕ) (c d v : ℕ)
    → ((i : ℕ) → b' i ≡ (if leb (c * 2) i && ltb i (c * 2 + 2) then byte_of v (i - c * 2) else b i))
    → raw_entry fs_fat16 b' d ≡ (if d == c then v % 65536 else raw_entry fs_fat16 b d)
raw16-write b b' c d v h = ground (arith, h (d * 2), h (d * 2 + 1))

pub raw32-write :
    (b b' : ℕ → ℕ) (c d v : ℕ)
    → ((i : ℕ) → b' i ≡ (if leb (c * 4) i && ltb i (c * 4 + 4) then byte_of v (i - c * 4) else b i))
    → raw_entry fs_fat32 b' d ≡ (if d == c then v % 2 ^ 32 else raw_entry fs_fat32 b d)
raw32-write b b' c d v h = elim (ℕ_discrete d c) [
  | yes e ↦
      let b0 : b' (c * 4) ≡ v % 256 = h (c * 4) ∙ ground arith in
      let b1 : b' (c * 4 + 1) ≡ v / 256 % 256 = h (c * 4 + 1) ∙ ground arith in
      let b2 : b' (c * 4 + 2) ≡ v / 65536 % 256 = h (c * 4 + 2) ∙ ground arith in
      let b3 : b' (c * 4 + 3) ≡ v / 16777216 % 256 = h (c * 4 + 3) ∙ ground arith in
      let t : (c == c) ≡ true = ground arith in rw (e, t, b0, b1, b2, b3) (omega arith)
  | no ne ↦ ground (arith, h (d * 4), h (d * 4 + 1), h (d * 4 + 2), h (d * 4 + 3))
]

-- Of the two bytes of an entry of 12 bits, the value after the write.
abbrev pub Bytes12 : ℕ → ℕ → ℕ → ℕ → ℕ → ℕ → Type 0
Bytes12 c v lo hi lo' hi' =
    if c % 2 == 0
    then (lo' ≡ v % 256) × (hi' ≡ v / 256 % 16 + hi / 16 * 16)
    else (lo' ≡ v % 16 * 16 + lo % 16) × (hi' ≡ v / 16 % 256)

pub raw12-write :
    (b b' : ℕ → ℕ) (c d v : ℕ)
    → ((i : ℕ) → b i < 256)
    → Bytes12 c v (b (c * 3 / 2)) (b (c * 3 / 2 + 1)) (b' (c * 3 / 2)) (b' (c * 3 / 2 + 1))
    → ((i : ℕ) → i ≢ c * 3 / 2 → i ≢ c * 3 / 2 + 1 → b' i ≡ b i)
    → raw_entry fs_fat12 b' d ≡ (if d == c then v % 4096 else raw_entry fs_fat12 b d)
raw12-write b b' c d v byte two rest = elim (ℕ_discrete d c) [
  | yes e ↦ rw e (ground (arith, byte (c * 3 / 2), byte (c * 3 / 2 + 1)))
  | no ne ↦
      ground (arith, byte (c * 3 / 2), byte (c * 3 / 2 + 1), rest (d * 3 / 2), rest (d * 3 / 2 + 1))
]
