-- ===== src/File/Content.antt =====
-- The bytes of a file as a function of the offset, and what it is for a FILE_POSITION to stand for an
-- offset: what source/fatfile.c keeps of both.
use libfat.Base.{
  ℕ, ◌+◌, ◌-◌, ◌*◌, ◌/◌, ◌%◌, ◌^◌, ◌≤◌, ◌<◌, ◌≡◌, ◌⊎◌, inl, true, false, arith, u32, leb, ap, refl,
  ◌∙◌,
}
use libfat.Cache.Invariant.{Sectors}
use libfat.Cache.Sector.Update.{row_after}
use libfat.Partition.State.{Partition}
use libfat.Fat.Entry.{cluster_eof, cluster_first, cluster_to_sector}
use libfat.Fat.Entry.Places.{div_mod_unique, mod_bounds, div_lt}
use libfat.Fat.Table.{IsFat}
use libfat.Fat.Chain.Shows.{Links}
use libfat.File.State.{FilePosition, after_bytes}
use native.Mathlib.Decide.{dec_le}

pub div_le : (a w n : ℕ) → 0 < w → a ≤ n * w → a / w ≤ n
div_le a w n pos le = elim (dec_le (a / w) n) [
  | yes fits ↦ fits
  | no more ↦ absurd (omega (arith, (mod_bounds a w pos).0, row_after w n (a / w) (omega arith)))
]

-- The data area of a partition lies inside a store of `size` sectors.
pub record IsData (p : Partition) (size : ℕ) : Type 0 where
  pub fat : IsFat p size
  pub some_sectors : 0 < p.sectors_per_cluster
  pub cluster_size : p.bytes_per_cluster ≡ p.sectors_per_cluster * p.bytes_per_sector
  pub cluster_small : p.bytes_per_cluster < 2 ^ 32
  pub area : (p.fat.last_cluster - 1) * p.sectors_per_cluster + p.data_start ≤ size
  pub behind_table : p.fat.fat_start + p.fat.sectors_per_fat ≤ p.data_start

-- The `m` clusters of a file: `cl 0`, `cl 1`, ..., each linked to the next, the last to the end mark.
pub record IsClusters (p : Partition) (links : Links) (cl : ℕ → ℕ) (m : ℕ) : Type 0 where
  pub valid : (i : ℕ) → i < m → (cluster_first ≤ cl i) × (cl i ≤ p.fat.last_cluster)
  pub linked : (i : ℕ) → i + 1 < m → links (cl i) ≡ cl (i + 1)
  pub ends : (i : ℕ) → i + 1 ≡ m → links (cl i) ≡ cluster_eof

-- Byte `pos` of the file.
abbrev pub content : Sectors → Partition → (ℕ → ℕ) → ℕ → ℕ
content sectors p cl pos =
    sectors
      (cluster_to_sector p (cl (pos / p.bytes_per_cluster))
        + pos % p.bytes_per_cluster / p.bytes_per_sector)
      (pos % p.bytes_per_sector)

-- The position stands for offset `pos`: in a cluster of the file, or just behind its last sector.
pub record IsAt (p : Partition) (cl : ℕ → ℕ) (m : ℕ) (q : FilePosition) (pos : ℕ) : Type 0 where
  pub index : ℕ
  pub inside : index < m
  pub cluster : q.cluster ≡ cl index
  pub offset : pos ≡ index * p.bytes_per_cluster + q.sector * p.bytes_per_sector + q.byte
  pub byte : q.byte < p.bytes_per_sector
  pub sector :
      (q.sector < p.sectors_per_cluster) ⊎ (q.sector ≡ p.sectors_per_cluster) × (q.byte ≡ 0)

module _ (p : Partition) (size : ℕ) (d : IsData p size) where
  open p use {bytes_per_sector, sectors_per_cluster, bytes_per_cluster}

  pub some_bytes : 0 < bytes_per_sector
  some_bytes = omega (arith, d.fat.some_bytes)

  -- Sectors of a cluster in bytes.
  pub sectors_le : (k : ℕ) → k ≤ sectors_per_cluster → k * bytes_per_sector ≤ bytes_per_cluster
  sectors_le k h = grind (arith, d.cluster_size)

  pub sector_fits :
      (k : ℕ)
      → k < sectors_per_cluster
      → k * bytes_per_sector + bytes_per_sector ≤ bytes_per_cluster
  sector_fits k h =
      omega (arith, d.cluster_size, row_after bytes_per_sector k sectors_per_cluster h)

  pub some_cluster_bytes : bytes_per_sector ≤ bytes_per_cluster
  some_cluster_bytes = omega (arith, sector_fits 0 d.some_sectors)

  pub sectors_small : sectors_per_cluster < 2 ^ 32
  sectors_small = omega (
    arith,
    d.cluster_size,
    d.cluster_small,
    row_after sectors_per_cluster 0 bytes_per_sector some_bytes,
  )

  pub some_cluster : 0 < bytes_per_cluster
  some_cluster = omega (arith, d.fat.some_bytes, some_cluster_bytes)

  -- The offset in a cluster, in sectors and bytes.
  pub offset_parts :
      (n : ℕ)
      → let i = n / bytes_per_cluster in
        let s = n % bytes_per_cluster / bytes_per_sector in
        (n ≡ i * bytes_per_cluster + s * bytes_per_sector + n % bytes_per_sector)
        × (s < sectors_per_cluster)
        × (n % bytes_per_sector < bytes_per_sector)
  offset_parts n =
      let i = n / bytes_per_cluster in
      let r = n % bytes_per_cluster in
      let s = r / bytes_per_sector in
      let (e, lt) = mod_bounds n bytes_per_cluster some_cluster in
      let (e', lt') = mod_bounds r bytes_per_sector (some_bytes) in
      let inside =
        div_lt r bytes_per_sector sectors_per_cluster (some_bytes)
          (omega (arith, lt, d.cluster_size)) in
      let (f, f') =
        div_mod_unique n (i * sectors_per_cluster + s) (r % bytes_per_sector) bytes_per_sector
          (omega (arith, e, e', ap (λ (k : ℕ). i * k) d.cluster_size)) lt' in
      (rw f' (omega (arith, e, e')), inside, rw f' lt')

  pub cluster_to_sector-valid :
      (c : ℕ)
      → cluster_first ≤ c
      → c ≤ p.fat.last_cluster
      → (cluster_to_sector p c ≡ (c - 2) * sectors_per_cluster + p.data_start)
        × (cluster_to_sector p c + sectors_per_cluster ≤ size)
  unfolding cluster_to_sector
  cluster_to_sector-valid c lo hi =
      let m = row_after sectors_per_cluster (c - 2) (p.fat.last_cluster - 1) (omega arith) in
      ground (arith, m, d.area, d.fat.no_wrap)

  -- Clusters that follow one another.
  pub run_inside :
      (c n : ℕ)
      → cluster_first ≤ c
      → c + n ≤ p.fat.last_cluster
      → (cluster_to_sector p (c + n) ≡ cluster_to_sector p c + n * sectors_per_cluster)
        × (cluster_to_sector p c + n * sectors_per_cluster + sectors_per_cluster ≤ size)
  run_inside c n lo hi =
      let (e, f) = cluster_to_sector-valid c lo (omega arith) in
      let (e', f') = cluster_to_sector-valid (c + n) (omega arith) hi in
      let s : c + n - 2 ≡ (c - 2) + n = omega arith in
      let s' : (c + n - 2) * sectors_per_cluster
          ≡ (c - 2) * sectors_per_cluster + n * sectors_per_cluster =
        ap (λ (t : ℕ). t * sectors_per_cluster) s ∙ omega arith in
      omega (arith, e, e', s', f')

  module _ (sectors : Sectors) (cl : ℕ → ℕ) where
    -- Byte `o` of sector `s` of cluster `i` of the file.
    pub content_at :
        (i s o : ℕ)
        → s < sectors_per_cluster
        → o < bytes_per_sector
        → content sectors p cl (i * bytes_per_cluster + s * bytes_per_sector + o)
          ≡ sectors (cluster_to_sector p (cl i) + s) o
    content_at i s o h h' =
        let pos = i * bytes_per_cluster + s * bytes_per_sector + o in
        let fit = sector_fits s h in
        let (e, e') =
          div_mod_unique pos i (s * bytes_per_sector + o) bytes_per_cluster (omega arith)
            (omega arith) in
        let (f, f') =
          div_mod_unique (s * bytes_per_sector + o) s o bytes_per_sector (omega arith) h' in
        let split : pos ≡ (i * sectors_per_cluster + s) * bytes_per_sector + o =
          omega (arith, ap (λ (t : ℕ). i * t) d.cluster_size) in
        let (g, g') =
          div_mod_unique pos (i * sectors_per_cluster + s) o bytes_per_sector split h' in
        rw (e, e', f, g') refl

    -- Sector `j` of a run of clusters that follow one another from cluster `i` of the file on.
    pub content_run :
        (i n j o : ℕ)
        → ((k : ℕ) → k < n → cl (i + k) ≡ cl i + k)
        → cluster_first ≤ cl i
        → cl i + n ≤ p.fat.last_cluster + 1
        → j < n * sectors_per_cluster
        → o < bytes_per_sector
        → content sectors p cl (i * bytes_per_cluster + j * bytes_per_sector + o)
          ≡ sectors (cluster_to_sector p (cl i) + j) o
    content_run i n j o next lo hi h h' =
        let c = j / sectors_per_cluster in
        let s = j % sectors_per_cluster in
        let (e, lt) = mod_bounds j sectors_per_cluster d.some_sectors in
        let below : c < n = div_lt j sectors_per_cluster n d.some_sectors h in
        let (same, room) = run_inside (cl i) c lo (omega arith) in
        let split : i * bytes_per_cluster + j * bytes_per_sector + o
            ≡ (i + c) * bytes_per_cluster + s * bytes_per_sector + o =
          omega
            (arith, ap (λ (t : ℕ). t * bytes_per_sector) e, ap (λ (t : ℕ). c * t) d.cluster_size) in
        let at = content_at (i + c) s o lt h' in
        rw split (at ∙ rw (next c below, same) (ap (λ (t : ℕ). sectors t o) (omega (arith, e))))

  module _ (cl : ℕ → ℕ) (m : ℕ) (q : FilePosition) (pos : ℕ) (at : IsAt p cl m q pos) where
    -- Bytes of the sector that the position is in.
    pub after_bytes-IsAt :
        (n : ℕ)
        → q.sector < sectors_per_cluster
        → q.byte + n ≤ bytes_per_sector
        → IsAt p cl m (after_bytes p q n) (pos + n)
    after_bytes-IsAt n inside fits = elim (dec_le bytes_per_sector (q.byte + n)) [
      | yes full ↦
          let t : leb bytes_per_sector (q.byte + n) ≡ true = ground arith in
          let s : u32 (q.sector + 1) ≡ q.sector + 1 = omega (arith, sectors_small) in
          rw (t, s)
            (record {
              index = at.index;
              inside = at.inside;
              cluster = at.cluster;
              offset = omega (arith, at.offset);
              byte = some_bytes;
              sector = ground arith;
            })
      | no part ↦
          let t : leb bytes_per_sector (q.byte + n) ≡ false = ground arith in
          rw t (record {
            index = at.index;
            inside = at.inside;
            cluster = at.cluster;
            offset = omega (arith, at.offset);
            byte = omega arith;
            sector = inl inside;
          })
    ]
