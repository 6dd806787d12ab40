-- ===== src/File/Write/Onward.antt =====
-- Going on to the next cluster of a file that has one.
use libfat.Base.{
  ℕ, ◌+◌, ◌*◌, ◌≤◌, ◌<◌, ◌≡◌, ◌⊎◌, inl, inr, true, false, ◌&&◌, ◌||◌, some, arith, leb, ltb, ◌==◌,
  ap, refl, ◌∙◌, Buffer,
}
use native.Mathlib.Decide.{dec_lt, ℕ_discrete}
use libfat.Cache.Invariant.{Sectors}
use libfat.Store.{SectorStore, IsStore}
use libfat.Partition.State.{Partition, Volume}
use libfat.Fat.Entry.{cluster_first, cluster_eof, cluster_free, is_valid_cluster, next_cluster}
use libfat.Fat.Entry.Places.{has_entry}
use libfat.Fat.Entry.Next.{next_cluster-table}
use libfat.Fat.Table.{table}
use libfat.Fat.Chain.Clear.{IsFat-small}
use libfat.File.State.{Errno, FilePosition}
use libfat.File.Content.{IsData, IsClusters}
use libfat.File.Layout.{table-same}
use libfat.File.Layout.Puts.{mul_mono}
use libfat.File.Next.{advance, next_or_new, check_position_for_next_cluster}
use libfat.File.Write.Stages.{Writing, write_check}
use libfat.File.Write.Kept.{Put}

module _ (store : SectorStore) (size : ℕ) (p : Partition)
    (laws : IsStore store size p.bytes_per_sector) (d : IsData p size) (base : Sectors) (cl : ℕ → ℕ)
    (m : ℕ) (clusters : IsClusters p (table base p) cl m) where
  open p use {bytes_per_sector, sectors_per_cluster, bytes_per_cluster}

  -- The position is behind cluster `i` of the file, which is not the last.
  pub check_position-next :
      (v : Volume store) (s : Sectors) (errno : Errno) (q : FilePosition) (remain i : ℕ)
      → laws.Holds v.cache s
      → ((t o : ℕ) → t < p.data_start → s t o ≡ base t o)
      → i + 1 < m
      → q.cluster ≡ cl i
      → q.sector ≡ sectors_per_cluster
      → 0 < remain
      → (v' : Volume store) × (check_position_for_next_cluster store p v errno q remain true
          ≡ some (record {
            returned = true;
            no_error = true;
            position = record q { cluster = cl (i + 1); sector = 0 };
            volume = v';
            errno = errno;
          }))
        × laws.Holds v'.cache s
  unfolding check_position_for_next_cluster next_or_new advance is_valid_cluster
  check_position-next v s errno q remain i h below inside c full pos =
      let (lo, hi) = clusters.valid i (omega arith) in
      let (lo', hi') = clusters.valid (i + 1) inside in
      let last : q.cluster ≤ p.fat.last_cluster = omega (arith, c, hi) in
      let (e, h') =
        next_cluster-table store size p laws d.fat v.cache s q.cluster h
          (has_entry p size d.fat q.cluster last) in
      let r = next_cluster store p v.cache q.cluster in
      let l : r.0 ≡ cl (i + 1) =
        e
        ∙ table-same p size base s q.cluster d last below
        ∙ ap (table base p) c
        ∙ clusters.linked i inside in
      let t : (remain == 0) ≡ false = ground arith in
      let t' : ltb sectors_per_cluster q.sector ≡ false = ground arith in
      let t'' : (q.sector == sectors_per_cluster) ≡ true = ground arith in
      let t3 : (cl (i + 1) == cluster_eof || cl (i + 1) == cluster_free) ≡ false =
        ground (arith, IsFat-small d.fat) in
      let t4 : (leb cluster_first (cl (i + 1)) && leb (cl (i + 1)) p.fat.last_cluster) ≡ true =
        ground arith in
      rw (t, t', t'', l, t3, t4) (record v { cache = r.1 }, refl, h')

  module _ (start len : ℕ) (buffer : Buffer) (bytes : (k : ℕ) → buffer k < 256) (errno : Errno)
      (bound : start + len ≤ m * bytes_per_cluster) where
    abbrev Here : Writing store p → Type 0
    Here x = Put store size p laws d base cl m clusters start len buffer bytes errno x

    -- The check leaves the position in a cluster, where anything is left to write.
    pub record IsOnward (x y : Writing store p) : Type 0 where
      pub here : Here y
      pub remain : y.remain ≡ x.remain
      pub byte : y.position.byte ≡ x.position.byte
      pub inside :
          (y.remain ≡ 0)
          ⊎ ((y.position.sector < sectors_per_cluster)
              × ((y.position.sector ≡ x.position.sector) ⊎ (y.position.sector ≡ 0)))

    check-none :
        (x : Writing store p)
        → Here x
        → (x.remain ≡ 0) ⊎ (x.position.sector < sectors_per_cluster)
        → write_check store p x ≡ some x
    unfolding write_check check_position_for_next_cluster
    check-none x g (inl z) = let t : (x.remain == 0) ≡ true = ground arith in rw t refl
    check-none x g (inr inside) = elim (ℕ_discrete x.remain 0) [
      | yes z ↦ let t : (x.remain == 0) ≡ true = ground arith in rw t refl
      | no ne ↦
          let t : (x.remain == 0) ≡ false = ground arith in
          let t' : ltb sectors_per_cluster x.position.sector ≡ false = ground arith in
          let t'' : (x.position.sector == sectors_per_cluster) ≡ false = ground arith in
          rw (t, g.fine, t', t'') refl
    ]

    next_inside :
        (x : Writing store p) (g : Here x)
        → x.position.sector ≡ sectors_per_cluster
        → 0 < x.remain
        → g.at.index + 1 < m
    next_inside x g full pos = elim (dec_lt (g.at.index + 1) m) [
      | yes more ↦ more
      | no last ↦
          let all = mul_mono bytes_per_cluster m (g.at.index + 1) (omega arith) in
          let sectors = ap (λ (k : ℕ). k * bytes_per_sector) full in
          absurd (omega (arith, all, g.at.offset, sectors, d.cluster_size, g.sum, bound, pos))
    ]

    pub write_check-IsOnward :
        (x : Writing store p)
        → Here x
        → (y : Writing store p) × (write_check store p x ≡ some y) × IsOnward x y
    unfolding write_check
    write_check-IsOnward x g = elim (ℕ_discrete x.remain 0) [
      | yes z ↦ (
        x,
        check-none x g (inl z),
        record { here = g; remain = refl; byte = refl; inside = inl z },
      )
      | no ne ↦ elim (dec_lt x.position.sector sectors_per_cluster) [
        | yes inside ↦ (
          x,
          check-none x g (inr inside),
          record { here = g; remain = refl; byte = refl; inside = inr (inside, inl refl) },
        )
        | no not_inside ↦
            let full : x.position.sector ≡ sectors_per_cluster = ground (arith, g.at.sector) in
            let b : x.position.byte ≡ 0 = ground (arith, g.at.sector) in
            let i = g.at.index in
            let more = next_inside x g full (omega arith) in
            let (v', e, h) =
              check_position-next x.volume g.after x.errno x.position x.remain i g.holds g.put.below
                more g.at.cluster full (omega arith) in
            let y : Writing store p = record x {
              volume = v';
              position = record x.position { cluster = cl (i + 1); sector = 0 };
              no_error = true;
            } in
            let sectors = ap (λ (k : ℕ). k * bytes_per_sector) full in
            (
              y,
              rw (g.fine, e) refl,
              record {
                here = record {
                  after = g.after;
                  holds = h;
                  put = g.put;
                  fine = refl;
                  kept_errno = g.kept_errno;
                  sum = g.sum;
                  at = record {
                    index = i + 1;
                    inside = more;
                    cluster = refl;
                    offset = omega (arith, g.at.offset, sectors, d.cluster_size);
                    byte = g.at.byte;
                    sector = inl d.some_sectors;
                  };
                };
                remain = refl;
                byte = refl;
                inside = inr (d.some_sectors, inr refl);
              },
            )
      ]
    ]
