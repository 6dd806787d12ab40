-- ===== src/File/Ends.antt =====
-- How far it is to the end of a sector and of a cluster.
use libfat.Base.{
  ℕ, ◌+◌, ◌-◌, ◌*◌, ◌/◌, ◌≤◌, ◌<◌, ◌≡◌, ◌⊎◌, inl, inr, true, false, arith, u32, sub32, ltb,
}
use native.Mathlib.Decide.{dec_lt}
use libfat.Partition.State.{Partition}
use libfat.Fat.Entry.Places.{mod_bounds}
use libfat.File.State.{FilePosition, to_sector_end, to_cluster_end}
use libfat.File.Content.{IsData, div_le, some_bytes, some_cluster_bytes, sectors_small, sectors_le}

module _ (p : Partition) (size : ℕ) (d : IsData p size) where
  open p use {bytes_per_sector, sectors_per_cluster}

  pub to_sector_end_lem :
      (q : FilePosition) (remain : ℕ)
      → q.byte < bytes_per_sector
      → let n = to_sector_end p q remain in
        (n ≤ remain)
        × (q.byte + n ≤ bytes_per_sector)
        × ((q.byte + n ≡ bytes_per_sector) ⊎ (n ≡ remain))
  to_sector_end_lem q remain lt =
      let left : sub32 bytes_per_sector q.byte ≡ bytes_per_sector - q.byte =
        omega (arith, d.cluster_small, some_cluster_bytes p size d) in
      rw left (ground arith)

  pub to_cluster_end_lem :
      (q : FilePosition) (remain : ℕ)
      → q.sector ≤ sectors_per_cluster
      → let n = to_cluster_end p q remain in
        (n * bytes_per_sector ≤ remain)
        × (q.sector + n ≤ sectors_per_cluster)
        × ((q.sector + n ≡ sectors_per_cluster)
            ⊎ (remain < n * bytes_per_sector + bytes_per_sector))
  to_cluster_end_lem q remain le =
      let left : sub32 sectors_per_cluster q.sector ≡ sectors_per_cluster - q.sector =
        omega (arith, sectors_small p size d) in
      let n = sectors_per_cluster - q.sector in
      let small : u32 (n * bytes_per_sector) ≡ n * bytes_per_sector =
        omega (arith, sectors_le p size d n (omega arith), d.cluster_small) in
      let (e, lt) = mod_bounds remain bytes_per_sector (some_bytes p size d) in
      rw (left, small)
        (elim (dec_lt (n * bytes_per_sector) remain) [
          | yes more ↦
              let t : ltb (n * bytes_per_sector) remain ≡ true = ground arith in
              rw t (omega arith, omega arith, inl (omega arith))
          | no all ↦
              let t : ltb (n * bytes_per_sector) remain ≡ false = ground arith in
              let k = remain / bytes_per_sector in
              let bound : k ≤ n =
                div_le remain bytes_per_sector n (some_bytes p size d) (omega arith) in
              rw t (omega (arith, e), omega arith, inr (omega (arith, e, lt)))
        ])
