-- ===== src/File/Read/Clusters.antt =====
-- The stages of `_FAT_read_r` that go from cluster to cluster, on a file whose chain is whole.
use libfat.Base.{
  ℕ, ◌+◌, ◌*◌, ◌≤◌, ◌<◌, ◌≡◌, ◌⊎◌, inl, inr, true, false, ◌&&◌, arith, leb, ◌==◌, ap, refl, ◌∙◌,
  sym,
}
use native.Mathlib.Decide.{dec_lt}
use libfat.Cache.Invariant.{Sectors}
use libfat.Store.{SectorStore, IsStore}
use libfat.Partition.State.{Partition}
use libfat.Fat.Entry.{cluster_first, cluster_eof, is_valid_cluster, next_cluster}
use libfat.Fat.Entry.Places.{has_entry}
use libfat.Fat.Entry.Next.{next_cluster-table}
use libfat.Fat.Table.{table}
use libfat.Fat.Chain.Clear.{IsFat-small}
use libfat.File.State.{Errno, FilePosition}
use libfat.File.Content.{IsData, IsClusters, some_bytes}
use libfat.File.Read.{Reading, move_on, read_next_cluster}
use libfat.File.Read.Copied.{Got}

module _ (store : SectorStore) (size : ℕ) (p : Partition)
    (laws : IsStore store size p.bytes_per_sector) (d : IsData p size) (sectors : Sectors)
    (cl : ℕ → ℕ) (m : ℕ) (clusters : IsClusters p (table sectors p) cl m) (start len : ℕ)
    (errno : Errno) (bound : start + len ≤ m * p.bytes_per_cluster) where
  open p use {bytes_per_sector, sectors_per_cluster, bytes_per_cluster}

  abbrev Here : Reading store p → Type 0
  Here x = Got store size p laws d sectors cl m clusters start len errno x

  pub next_of :
      (st : store.State) (c i : ℕ)
      → laws.Holds st sectors
      → i < m
      → c ≡ cl i
      → let r = next_cluster store p st c in (r.0 ≡ table sectors p c) × laws.Holds r.1 sectors
  next_of st c i h inside e =
      next_cluster-table store size p laws d.fat st sectors c h
        (has_entry p size d.fat c (omega (arith, clusters.valid i inside)))

  -- From just behind the last sector of a cluster of the file.
  pub move_on-Got :
      (x : Reading store p) (q : FilePosition) (next : ℕ)
      → Here (record x { position = q })
      → q.sector ≡ sectors_per_cluster
      → x.position.byte ≡ 0
      → next ≡ table sectors p q.cluster
      → let y = move_on store p x q.cluster next in
        Here y
        × (y.remain ≡ x.remain)
        × ((y.remain ≡ 0) ⊎ ((y.position.byte ≡ 0) × (y.position.sector ≡ 0)))
  unfolding move_on is_valid_cluster
  move_on-Got x q next g full b e =
      let i = g.at.index in
      let byte : q.byte ≡ 0 = ground (arith, g.at.sector) in
      let c : next ≡ table sectors p (cl i) = e ∙ ap (table sectors p) g.at.cluster in
      let f : q.sector * bytes_per_sector ≡ bytes_per_cluster =
        ap (λ (t : ℕ). t * bytes_per_sector) full ∙ sym d.cluster_size in
      let pos : start + x.ptr ≡ (i + 1) * bytes_per_cluster = omega (arith, g.at.offset, f) in
      elim (dec_lt (i + 1) m) [
        | yes more ↦
            let l : next ≡ cl (i + 1) = c ∙ clusters.linked i more in
            let (lo, hi) = clusters.valid (i + 1) more in
            let t : (x.remain == 0 && next == cluster_eof) ≡ false =
              ground (arith, IsFat-small d.fat) in
            let t' : (leb cluster_first next && leb next p.fat.last_cluster) ≡ true =
              ground arith in
            rw (t, t')
              (
                record {
                  holds = g.holds;
                  fine = g.fine;
                  kept_errno = g.kept_errno;
                  sum = g.sum;
                  at = record {
                    index = i + 1;
                    inside = more;
                    cluster = l;
                    offset = omega (arith, pos, b);
                    byte = omega (arith, b, some_bytes p size d);
                    sector = inl d.some_sectors;
                  };
                  copied = g.copied;
                },
                refl,
                inr (b, refl),
              )
        | no last ↦
            let end : i + 1 ≡ m = omega (arith, g.at.inside) in
            let l : next ≡ cluster_eof = c ∙ clusters.ends i end in
            let whole : (i + 1) * bytes_per_cluster ≡ m * bytes_per_cluster =
              ap (λ (t : ℕ). t * bytes_per_cluster) end in
            let none_left : x.remain ≡ 0 = omega (arith, g.sum, bound, pos, whole) in
            let t : (x.remain == 0 && next == cluster_eof) ≡ true = ground arith in
            rw t (
              record {
                holds = g.holds;
                fine = g.fine;
                kept_errno = g.kept_errno;
                sum = g.sum;
                at = record {
                  index = i;
                  inside = g.at.inside;
                  cluster = g.at.cluster;
                  offset = omega (arith, pos, b, d.cluster_size);
                  byte = omega (arith, b, some_bytes p size d);
                  sector = inr (refl, b);
                };
                copied = g.copied;
              },
              refl,
              inl none_left,
            )
      ]

  pub read_next_cluster-Got :
      (x : Reading store p)
      → Here x
      → (x.remain ≡ 0)
        ⊎ ((x.position.byte ≡ 0)
            × ((x.position.sector ≡ sectors_per_cluster) ⊎ (x.remain < bytes_per_sector)))
      → let y = read_next_cluster store p x in
        Here y
        × (y.remain ≡ x.remain)
        × ((y.remain ≡ 0)
            ⊎ ((y.position.byte ≡ 0)
                × ((y.position.sector ≡ 0)
                    ⊎ ((y.position.sector < sectors_per_cluster) × (y.remain < bytes_per_sector)))))
  unfolding read_next_cluster
  read_next_cluster-Got x g left = elim (dec_lt x.position.sector sectors_per_cluster) [
    | yes inside ↦
        let t : leb sectors_per_cluster x.position.sector ≡ false = ground arith in
        rw t (g, refl, ground (arith, left))
    | no full ↦
        let s : x.position.sector ≡ sectors_per_cluster = ground (arith, g.at.sector) in
        let b : x.position.byte ≡ 0 = ground (arith, g.at.sector) in
        let t : (leb sectors_per_cluster x.position.sector && x.no_error) ≡ true =
          ground (arith, g.fine) in
        let r = next_cluster store p x.cache x.position.cluster in
        let (e, h) =
          next_of x.cache x.position.cluster g.at.index g.holds g.at.inside g.at.cluster in
        let g' : Here (record x { cache = r.1 }) = record {
          holds = h;
          fine = g.fine;
          kept_errno = g.kept_errno;
          sum = g.sum;
          at = g.at;
          copied = g.copied;
        } in
        let (here, same, where_) = move_on-Got (record x { cache = r.1 }) x.position r.0 g' s b e in
        rw t (here, same, ground (arith, where_))
  ]
