-- ===== src/File/Write/Parts.antt =====
-- The stages of `_FAT_write_r` inside a cluster, where the file has the clusters already.
use libfat.Base.{
  ℕ, ◌+◌, ◌-◌, ◌*◌, ◌/◌, ◌≤◌, ◌<◌, ◌≡◌, ◌⊎◌, inl, inr, true, false, ◌&&◌, arith, u32, ltb, ap, refl,
  ◌∙◌, Buffer,
}
use native.Mathlib.Decide.{dec_lt, ℕ_discrete}
use libfat.Cache.Invariant.{Sectors}
use libfat.Cache.Sector.Update.{row_after}
use libfat.Cache.Sector.Partial.{put_bytes}
use libfat.Cache.Run.Writing.{put_run}
use libfat.Store.{SectorStore, IsStore}
use libfat.Partition.State.{Partition}
use libfat.Fat.Entry.{cluster_to_sector}
use libfat.Fat.Entry.Places.{mod_bounds, div_lt}
use libfat.Fat.Table.{table}
use libfat.File.State.{Errno, to_sector_end, to_cluster_end, position_sector, at_ptr}
use libfat.File.Content.{
  IsData, IsClusters, cluster_to_sector-valid, some_bytes, after_bytes-IsAt, sectors_small,
}
use libfat.File.Ends.{to_sector_end_lem, to_cluster_end_lem}
use libfat.File.Write.Stages.{
  Writing, write_to_sector, write_whole, write_rest, write_to_cluster, write_last_sectors,
}
use libfat.File.Write.Kept.{Put, part-IsPut, run-IsPut, write_sector-valid}

module _ (store : SectorStore) (size : ℕ) (p : Partition)
    (laws : IsStore store size p.bytes_per_sector) (d : IsData p size) (base : Sectors) (cl : ℕ → ℕ)
    (m : ℕ) (clusters : IsClusters p (table base p) cl m) (start len : ℕ) (buffer : Buffer)
    (bytes : (k : ℕ) → buffer k < 256) (errno : Errno)
    (bound : start + len ≤ m * p.bytes_per_cluster) where
  open p use {bytes_per_sector, sectors_per_cluster, bytes_per_cluster}

  abbrev Here : Writing store p → Type 0
  Here x = Put store size p laws d base cl m clusters start len buffer bytes errno x

  pub write_to_sector-Put :
      (x : Writing store p)
      → Here x
      → x.position.sector < sectors_per_cluster
      → let y = write_to_sector store p buffer x in
        Here y × ((y.position.byte ≡ 0) ⊎ (y.remain ≡ 0))
  unfolding write_to_sector
  write_to_sector-Put x g inside =
      let n = to_sector_end p x.position x.remain in
      let (le, fits, last) = to_sector_end_lem p size d x.position x.remain g.at.byte in
      elim (dec_lt n bytes_per_sector) [
        | yes lt ↦
            let t : ltb n bytes_per_sector ≡ true = ground arith in
            let (h, i) =
              part-IsPut store size p laws d base cl m clusters start len buffer bytes errno x g
                bound inside x.position.byte n refl fits le in
            let assoc : start + (x.ptr + n) ≡ start + x.ptr + n = omega arith in
            rw (t, g.fine)
              (
                record {
                  after =
                      put_bytes g.after (position_sector p x.position) x.position.byte n
                        (at_ptr buffer x.ptr);
                  holds = h;
                  put = i;
                  fine = refl;
                  kept_errno = g.kept_errno;
                  sum = omega (arith, g.sum);
                  at = rw assoc (
                      after_bytes-IsAt p size d cl m x.position (start + x.ptr) g.at n inside fits);
                },
                ground (arith, last),
              )
        | no ge ↦
            let t : ltb n bytes_per_sector ≡ false = ground arith in rw t (g, inl (omega arith))
      ]

  write_rest_lem :
      (x y : Writing store p) (sector n : ℕ)
      → x.no_error ≡ true
      → write_whole store p buffer x sector n ≡ y
      → y.no_error ≡ true
      → write_rest store p buffer x sector n
        ≡ record y { position = record x.position { sector = u32 (x.position.sector + n) } }
  write_rest_lem x y sector n fine e fine' = rw (e, fine', fine) refl

  -- Whole sectors of the cluster that the position is in.
  pub sectors-Put :
      (x : Writing store p) (n sector : ℕ) (g : Here x)
      → x.position.byte ≡ 0
      → n * bytes_per_sector ≤ x.remain
      → x.position.sector + n ≤ sectors_per_cluster
      → sector ≡ cluster_to_sector p (cl g.at.index) + x.position.sector
      → let y = write_rest store p buffer x sector n in
        Here y
        × (y.position.byte ≡ 0)
        × (y.position.sector ≡ x.position.sector + n)
        × (y.remain ≡ x.remain - n * bytes_per_sector)
  unfolding write_whole
  sectors-Put x n sector g b le room at =
      let i = g.at.index in
      let j = x.position.sector in
      let (lo, hi) = clusters.valid i g.at.inside in
      let (e, fits) = cluster_to_sector-valid p size d (cl i) lo hi in
      let one : (k : ℕ) → k < 1 → cl (i + k) ≡ cl i + k =
        λ k h. let z : i + k ≡ i = omega arith in ap cl z ∙ omega arith in
      let offset : start + x.ptr ≡ i * bytes_per_cluster + j * bytes_per_sector =
        omega (arith, g.at.offset) in
      let (ok, h, put) =
        run-IsPut store size p laws d base cl m clusters start len buffer bytes errno x g bound i 1
          j n one lo (omega arith) (omega arith) (omega arith) (omega (arith, g.at.inside)) offset
          le (omega arith) in
      let s : u32 (j + n) ≡ j + n = omega (arith, sectors_small p size d) in
      let first = cluster_to_sector p (cl i) + j in
      let r = store.write_sectors x.volume.cache first n (at_ptr buffer x.ptr) in
      let y : Writing store p = record x {
        volume = record (x.volume) { cache = r.state };
        ptr = x.ptr + n * bytes_per_sector;
        remain = x.remain - n * bytes_per_sector;
      } in
      rw (at, write_rest_lem x y first n g.fine (rw ok refl) g.fine, s)
        (
          record {
            after = put_run bytes_per_sector g.after first n (at_ptr buffer x.ptr) 0;
            holds = h;
            put = put;
            fine = g.fine;
            kept_errno = g.kept_errno;
            sum = omega (arith, g.sum);
            at = record {
              index = i;
              inside = g.at.inside;
              cluster = g.at.cluster;
              offset = omega (arith, offset);
              byte = g.at.byte;
              sector = ground arith;
            };
          },
          b,
          refl,
          refl,
        )

  -- Nothing is left, or the position is at the end or the start of a cluster, or less than a sector
  -- is left.
  abbrev pub Ready : Writing store p → Type 0
  Ready y =
      (y.remain ≡ 0)
      ⊎ ((y.position.byte ≡ 0)
          × ((y.position.sector ≡ sectors_per_cluster)
              ⊎ ((y.position.sector ≡ 0) ⊎ (y.remain < bytes_per_sector))))

  -- What is left after the rest of a cluster.
  pub write_to_cluster-Put :
      (x : Writing store p)
      → Here x
      → (x.position.byte ≡ 0) ⊎ (x.remain ≡ 0)
      → let y = write_to_cluster store p buffer x in Here y × Ready y
  unfolding write_to_cluster
  write_to_cluster-Put x g aligned =
      let n = to_cluster_end p x.position x.remain in
      let (le, room, last) =
        to_cluster_end_lem p size d x.position x.remain (ground (arith, g.at.sector)) in
      elim (ℕ_discrete n 0) [
        | yes z ↦
            let t : (ltb 0 n && ltb n sectors_per_cluster) ≡ false = ground arith in
            let product : n * bytes_per_sector ≡ 0 =
              ap (λ (k : ℕ). k * bytes_per_sector) z ∙ omega arith in
            rw t (
              g,
              elim aligned [
                | inr done ↦ inl done
                | inl b ↦ elim last [
                  | inl full ↦ inr (b, inl (omega (arith, full, z)))
                  | inr few ↦ inr (b, inr (inr (omega (arith, few, product))))
                ]
              ],
            )
        | no ne ↦ elim (ℕ_discrete n sectors_per_cluster) [
          | yes all ↦
              let t : (ltb 0 n && ltb n sectors_per_cluster) ≡ false = ground arith in
              rw t (
                g,
                elim aligned [
                  | inr done ↦ inl done
                  | inl b ↦ inr (b, inr (inl (omega (arith, room, all))))
                ],
              )
          | no some_ ↦
              let t : (ltb 0 n && ltb n sectors_per_cluster) ≡ true = ground arith in
              let m' = row_after bytes_per_sector 0 n (omega arith) in
              let b : x.position.byte ≡ 0 = ground (arith, aligned, d.fat.some_bytes) in
              let inside : x.position.sector < sectors_per_cluster = omega arith in
              let (e, _, _) =
                write_sector-valid store size p laws d base cl m clusters start len buffer bytes
                  errno x g bound inside in
              let (h, byte, sector, left) =
                sectors-Put x n (position_sector p x.position) g b le room e in
              rw t (
                h,
                elim last [
                  | inl full ↦ inr (byte, inl (sector ∙ full))
                  | inr few ↦ inr (byte, inr (inr (omega (arith, left, few))))
                ],
              )
        ]
      ]

  ready_many :
      (x : Writing store p)
      → (x.remain ≡ 0)
        ⊎ ((x.position.byte ≡ 0)
            × (x.position.sector < sectors_per_cluster)
            × ((x.position.sector ≡ 0) ⊎ (x.remain < bytes_per_sector)))
      → bytes_per_sector ≤ x.remain
      → (x.position.byte ≡ 0) × (x.position.sector ≡ 0)
  ready_many x (inl z) many = absurd (omega (arith, d.fat.some_bytes))
  ready_many x (inr (b, inside, inl s)) many = (b, s)
  ready_many x (inr (b, inside, inr few)) many = absurd (omega arith)

  -- The last sectors and bytes, where less than a cluster is left and the position is in one.
  pub write_last_sectors-Put :
      (x : Writing store p)
      → Here x
      → (x.remain ≡ 0)
        ⊎ ((x.position.byte ≡ 0)
            × (x.position.sector < sectors_per_cluster)
            × ((x.position.sector ≡ 0) ⊎ (x.remain < bytes_per_sector)))
      → x.remain < bytes_per_cluster
      → let y = write_last_sectors store p buffer x in
        Here y
        × ((y.remain ≡ 0)
            ⊎ ((y.position.byte ≡ 0)
                × (y.position.sector < sectors_per_cluster)
                × (y.remain < bytes_per_sector)))
  unfolding write_last_sectors
  write_last_sectors-Put x g ready few =
      let n = x.remain / bytes_per_sector in
      let (e, lt) = mod_bounds x.remain bytes_per_sector (some_bytes p size d) in
      elim (ℕ_discrete n 0) [
        | yes z ↦
            let t : ltb 0 n ≡ false = ground arith in
            let product = ap (λ (k : ℕ). k * bytes_per_sector) z in
            let below : x.remain < bytes_per_sector = omega (arith, e, lt, product) in
            rw t
              (g, elim ready [ inl done ↦ inl done | inr (b, inside, _) ↦ inr (b, inside, below) ])
        | no ne ↦
            let t : ltb 0 n ≡ true = ground arith in
            let many = row_after bytes_per_sector 0 n (omega arith) in
            let (b, s) = ready_many x ready (omega (arith, e, many)) in
            let room =
              div_lt x.remain bytes_per_sector sectors_per_cluster (some_bytes p size d)
                (omega (arith, few, d.cluster_size)) in
            let sector : cluster_to_sector p x.position.cluster
                ≡ cluster_to_sector p (cl g.at.index) + x.position.sector =
              ap (cluster_to_sector p) g.at.cluster ∙ omega (arith, s) in
            let (h, byte, sector', left) =
              sectors-Put x n (cluster_to_sector p x.position.cluster) g b (omega (arith, e))
                (omega (arith, room, s)) sector in
            rw t (h, inr (byte, omega (arith, sector', s, room), omega (arith, left, e, lt)))
      ]
