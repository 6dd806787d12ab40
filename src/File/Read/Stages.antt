-- ===== src/File/Read/Stages.antt =====
-- The stages of `_FAT_read_r` on a file whose chain is whole: each leaves what `Got` says.
use libfat.Base.{
  ℕ, ◌+◌, ◌-◌, ◌*◌, ◌≤◌, ◌<◌, ◌≡◌, ◌⊎◌, inl, true, false, arith, u32, ltb, ◌==◌, ap, refl, ◌∙◌,
}
use native.Mathlib.Decide.{dec_lt, ℕ_discrete}
use libfat.Cache.Invariant.{Sectors}
use libfat.Cache.Sector.Update.{row_after}
use libfat.Store.{SectorStore, IsStore}
use libfat.Partition.State.{Partition}
use libfat.Fat.Entry.{cluster_to_sector}
use libfat.Fat.Table.{table}
use libfat.File.State.{Errno, to_sector_end, to_cluster_end}
use libfat.File.Content.{
  IsData, IsClusters, cluster_to_sector-valid, after_bytes-IsAt, sectors_small,
}
use libfat.File.Ends.{to_sector_end_lem, to_cluster_end_lem}
use libfat.File.Read.{Reading, read_whole, read_rest, read_to_sector, read_to_cluster}
use libfat.File.Read.Copied.{Got, position_sector-valid, part_copied, run_copied, run_done}

module _ (store : SectorStore) (size : ℕ) (p : Partition)
    (laws : IsStore store size p.bytes_per_sector) (d : IsData p size) (sectors : Sectors)
    (cl : ℕ → ℕ) (m : ℕ) (clusters : IsClusters p (table sectors p) cl m) (start len : ℕ)
    (errno : Errno) where
  open p use {bytes_per_sector, sectors_per_cluster, bytes_per_cluster}

  abbrev Here : Reading store p → Type 0
  Here x = Got store size p laws d sectors cl m clusters start len errno x

  pub read_to_sector-Got :
      (x : Reading store p)
      → Here x
      → (x.position.sector < sectors_per_cluster) ⊎ (bytes_per_sector ≤ x.remain)
      → let y = read_to_sector store p x in Here y × ((y.position.byte ≡ 0) ⊎ (y.remain ≡ 0))
  unfolding read_to_sector
  read_to_sector-Got x g room =
      let n = to_sector_end p x.position x.remain in
      let (le, fits, last) = to_sector_end_lem p size d x.position x.remain g.at.byte in
      elim (dec_lt n bytes_per_sector) [
        | yes lt ↦
            let t : ltb n bytes_per_sector ≡ true = ground arith in
            let inside : x.position.sector < sectors_per_cluster =
              ground (arith, room, g.at.sector) in
            let (h, copied) =
              part_copied store size p laws d sectors cl m clusters start len errno x g inside
                x.position.byte n refl fits in
            let assoc : start + (x.ptr + n) ≡ start + x.ptr + n = omega arith in
            rw (t, g.fine)
              (
                record {
                  holds = h;
                  fine = refl;
                  kept_errno = g.kept_errno;
                  sum = omega (arith, g.sum);
                  at = rw assoc (
                      after_bytes-IsAt p size d cl m x.position (start + x.ptr) g.at n inside fits);
                  copied = copied;
                },
                ground (arith, last),
              )
        | no ge ↦
            let t : ltb n bytes_per_sector ≡ false = ground arith in rw t (g, inl (omega arith))
      ]

  pub read_rest_lem :
      (x y : Reading store p) (sector n : ℕ)
      → 0 < n
      → x.no_error ≡ true
      → read_whole store p x sector n ≡ y
      → y.no_error ≡ true
      → read_rest store p x sector n
        ≡ record y { position = record x.position { sector = u32 (x.position.sector + n) } }
  read_rest_lem x y sector n pos fine e fine' =
      let t : (n == 0) ≡ false = ground arith in rw (t, e, fine', fine) refl

  pub read_rest_none :
      (x : Reading store p) (sector n : ℕ) → n ≡ 0 → read_rest store p x sector n ≡ x
  read_rest_none x sector n e = let t : (n == 0) ≡ true = ground arith in rw t refl

  -- Whole sectors of the cluster that the position is in.
  pub sectors-Got :
      (x : Reading store p) (n : ℕ) (g : Here x)
      → 0 < n
      → x.position.byte ≡ 0
      → n * bytes_per_sector ≤ x.remain
      → x.position.sector + n ≤ sectors_per_cluster
      → let sector = cluster_to_sector p (cl g.at.index) + x.position.sector in
        let y = read_rest store p x sector n in
        Here y
        × (y.position.byte ≡ 0)
        × (y.position.sector ≡ x.position.sector + n)
        × (y.remain ≡ x.remain - n * bytes_per_sector)
  sectors-Got x n g pos b le room =
      let i = g.at.index in
      let j = x.position.sector in
      let (lo, hi) = clusters.valid i g.at.inside in
      let (e, fits) = cluster_to_sector-valid p size d (cl i) lo hi in
      let one : (k : ℕ) → k < 1 → cl (i + k) ≡ cl i + k =
        λ k h. let z : i + k ≡ i = omega arith in ap cl z ∙ omega arith in
      let offset : start + x.ptr ≡ i * bytes_per_cluster + j * bytes_per_sector =
        omega (arith, g.at.offset) in
      let (done, h) =
        run_done store size p laws d sectors cl m clusters start len errno x g i 1 j n one lo
          (omega arith) (omega arith) offset (omega arith) in
      let copied =
        run_copied store size p laws d sectors cl m clusters start len errno x g i 1 j n one lo
          (omega arith) (omega arith) offset (omega arith) in
      let s : u32 (j + n) ≡ j + n = omega (arith, sectors_small p size d) in
      rw (read_rest_lem x _ (cluster_to_sector p (cl i) + j) n pos g.fine done g.fine, s)
        (
          record {
            holds = h;
            fine = g.fine;
            kept_errno = g.kept_errno;
            sum = omega (arith, g.sum);
            at = record {
              index = i;
              inside = g.at.inside;
              cluster = g.at.cluster;
              offset = omega (arith, offset);
              byte = g.at.byte;
              sector = ground arith;
            };
            copied = copied;
          },
          b,
          refl,
          refl,
        )

  -- What is left after the rest of a cluster: nothing, or the cluster is at its end, or less than
  -- a sector is left.
  pub read_to_cluster-Got :
      (x : Reading store p)
      → Here x
      → (x.position.byte ≡ 0) ⊎ (x.remain ≡ 0)
      → let y = read_to_cluster store p x in
        Here y
        × ((y.remain ≡ 0)
            ⊎ ((y.position.byte ≡ 0)
                × ((y.position.sector ≡ sectors_per_cluster) ⊎ (y.remain < bytes_per_sector))))
  unfolding read_to_cluster
  read_to_cluster-Got x g aligned =
      let n = to_cluster_end p x.position x.remain in
      let (le, room, last) =
        to_cluster_end_lem p size d x.position x.remain (ground (arith, g.at.sector)) in
      elim (ℕ_discrete n 0) [
        | yes z ↦ rw (read_rest_none x _ n z) (g, ground (arith, aligned, last, z))
        | no ne ↦
            let m' = row_after bytes_per_sector 0 n (omega arith) in
            let b : x.position.byte ≡ 0 = ground (arith, aligned) in
            let inside : x.position.sector < sectors_per_cluster = omega arith in
            let (e, lt) =
              position_sector-valid store size p laws d sectors cl m clusters start len errno x g
                inside in
            let (h, byte, sector, left) = sectors-Got x n g (omega arith) b le room in
            rw e (h, ground (arith, byte, sector, left, last))
      ]
