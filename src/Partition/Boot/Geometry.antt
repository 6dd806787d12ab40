-- ===== src/Partition/Boot/Geometry.antt =====
-- What holds of a volume that the constructor accepts.
use libfat.Base.{
  ℕ, ◌+◌, ◌-◌, ◌*◌, ◌/◌, ◌^◌, ◌≤◌, ◌<◌, ◌≡◌, ◌⊎◌, inl, inr, Bool, true, false, ◌||◌, arith, ltb,
  leb, ◌==◌, Buffer, Bool-cases, refl, u32, sub32,
}
use native.Mathlib.Nat.{div-mul-le_self}
use native.Mathlib.Decide.{dec_lt}
use libfat.Partition.State.{Partition}
use libfat.Fat.Entry.{cluster_first, cluster_to_sector}
use libfat.Fat.Table.{IsKnown, eof_from}
use libfat.Partition.Boot.{
  refused, undefined, mounted, volume_geometry, read_boot_sector, type_of, cluster_count,
  data_start, number_of_sectors, bytes_per_sector,
}

type_of-IsKnown : (count : ℕ) → IsKnown (type_of count)
unfolding type_of
type_of-IsKnown count = elim (dec_lt count 4085) [
  | yes h ↦ let e : ltb count 4085 ≡ true = ground arith in rw e tt
  | no h ↦
      let e : ltb count 4085 ≡ false = ground arith in
      elim (dec_lt count 65525) [
        | yes k ↦ let e' : ltb count 65525 ≡ true = ground arith in rw (e, e') tt
        | no k ↦ let e' : ltb count 65525 ≡ false = ground arith in rw (e, e') tt
      ]
]

-- Every number up to the last cluster is below the marks for the end of a chain.
type_of-eof_from : (count : ℕ) → count + 1 < 0x0FFFFFF7 → u32 (count + 1) < eof_from (type_of count)
unfolding type_of
type_of-eof_from count small = elim (dec_lt count 4085) [
  | yes h ↦ let e : ltb count 4085 ≡ true = ground arith in rw e (omega arith)
  | no h ↦
      let e : ltb count 4085 ≡ false = ground arith in
      elim (dec_lt count 65525) [
        | yes k ↦ let e' : ltb count 65525 ≡ true = ground arith in rw (e, e') (omega arith)
        | no k ↦ let e' : ltb count 65525 ≡ false = ground arith in rw (e, e') (omega arith)
      ]
]

-- The volume that an accepted boot sector gives.
pub record Accepted (b : Buffer) (start : ℕ) (p : Partition) : Type 0 where
  pub known : IsKnown p.filesys_type
  pub numbers : p.fat.last_cluster < eof_from p.filesys_type
  pub least : 512 ≤ p.bytes_per_sector
  pub most : p.bytes_per_sector ≤ 4096
  pub some_sectors : 0 < p.sectors_per_cluster
  -- Every cluster lies between the data's start and the end of the volume.
  pub inside :
      (c : ℕ)
      → cluster_first ≤ c
      → c ≤ p.fat.last_cluster
      → (p.data_start ≤ cluster_to_sector p c)
        × (cluster_to_sector p c + p.sectors_per_cluster ≤ start + p.number_of_sectors)

mul_mono : (k a b : ℕ) → a ≤ b → a * k ≤ b * k
mul_mono k a b h = grind arith

within : (k x n : ℕ) → x + 1 ≤ n / k → x * k + k ≤ n
within k x n h =
    let m = mul_mono k (x + 1) (n / k) h in
    let e : (x + 1) * k ≡ x * k + k = omega arith in omega (arith, m, e, div-mul-le_self n k)

-- The sectors of cluster `c`, in numbers.
cluster_bounds :
    (start first sectors k c : ℕ)
    → start ≤ first
    → first ≤ start + sectors
    → start + sectors < 2 ^ 32
    → sub32 sectors (sub32 first start) / k + 1 < 2 ^ 32
    → 2 ≤ c
    → c ≤ u32 (sub32 sectors (sub32 first start) / k + 1)
    → (first ≤ u32 ((c - 2) * k + first)) × (u32 ((c - 2) * k + first) + k ≤ start + sectors)
cluster_bounds start first sectors k c above below small few lo hi =
    let e : sub32 sectors (sub32 first start) ≡ sectors - (first - start) = omega arith in
    let h : c - 2 + 1 ≤ sub32 sectors (sub32 first start) / k = omega arith in
    let h' : c - 2 + 1 ≤ (sectors - (first - start)) / k = rw (← e) h in
    let w = within k (c - 2) (sectors - (first - start)) h' in
    let e' : u32 ((c - 2) * k + first) ≡ (c - 2) * k + first = omega (arith, w) in
    rw e' (omega arith, omega (arith, w))

-- `_FAT_partition_constructor_buf`, on a boot sector whose data starts inside the volume, which ends
-- below 2 ^ 32, and whose clusters are fewer than FAT32 can number, none of which the code checks: it
-- is refused for the size of its sectors; or the
-- number of sectors per cluster is 0, which C leaves undefined; or the volume is accepted, its type
-- is known, its cluster numbers are below the end marks of that type, and every cluster lies
-- between the start of the data and the end of the volume.
pub read_boot_sector_lem :
    (b : Buffer) (start : ℕ) (read_only : Bool)
    → start ≤ data_start b start
    → data_start b start ≤ start + number_of_sectors b
    → start + number_of_sectors b < 2 ^ 32
    → cluster_count b start + 1 < 0x0FFFFFF7
    → let r = read_boot_sector b start read_only in
      ((r ≡ refused) × ((bytes_per_sector b < 512) ⊎ (4096 < bytes_per_sector b)))
      ⊎ (((r ≡ undefined) × (b 0x0D ≡ 0))
          ⊎ ((p : Partition) × (r ≡ mounted p) × Accepted b start p))
unfolding read_boot_sector volume_geometry cluster_to_sector
read_boot_sector_lem b start read_only above below small few =
    elim (Bool-cases (ltb (bytes_per_sector b) 512 || ltb 4096 (bytes_per_sector b))) [
      | inl odd ↦ inl (rw odd refl, sizes (bytes_per_sector b) odd)
      | inr size ↦ elim (Bool-cases (b 0x0D == 0)) [
        | inl none ↦ inr (inl (rw (size, none) refl, ground (arith, none)))
        | inr some ↦ inr (
            inr (
              volume_geometry b start read_only,
              rw (size, some) refl,
              record {
                known = type_of-IsKnown (cluster_count b start);
                numbers = type_of-eof_from (cluster_count b start) few;
                least = (sizes' (bytes_per_sector b) size).0;
                most = (sizes' (bytes_per_sector b) size).1;
                some_sectors = positive (b 0x0D) some;
                inside = λ c lo hi.
                    let t : leb 2 c ≡ true = ground (arith, lo) in
                    rw t (
                      cluster_bounds start (data_start b start) (number_of_sectors b) (b 0x0D) c
                        above below small (bound _ few) lo hi);
              },
            ))
      ]
    ]
  where
    sizes : (n : ℕ) → (ltb n 512 || ltb 4096 n) ≡ true → (n < 512) ⊎ (4096 < n)
    sizes n h = ground arith

    sizes' : (n : ℕ) → (ltb n 512 || ltb 4096 n) ≡ false → (512 ≤ n) × (n ≤ 4096)
    sizes' n h = ground arith

    bound : (n : ℕ) → n < 0x0FFFFFF7 → n < 2 ^ 32
    bound n h = omega arith

    positive : (n : ℕ) → (n == 0) ≡ false → 0 < n
    positive n h = ground arith
