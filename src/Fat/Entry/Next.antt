-- ===== src/Fat/Entry/Next.antt =====
-- `_FAT_fat_nextCluster` returns the link of the table, and the store goes on to hold the same
-- sectors.
use libfat.Base.{
  ℕ, ◌+◌, ◌*◌, ◌/◌, ◌%◌, ◌^◌, ◌≤◌, ◌<◌, ◌≡◌, inl, inr, arith, u32, leb, ◌==◌, if◌then◌else◌, refl,
  bit_and, bit_or, bit_or_low, bit_and_mask, Bool-cases,
}
use libfat.Cache.Invariant.{Sectors}
use libfat.Store.{SectorStore, IsStore}
use libfat.Partition.State.{FsType, fs_unknown, fs_fat12, fs_fat16, fs_fat32, Partition}
use libfat.Fat.Entry.{
  next_cluster, next_cluster_of, next_cluster12, next_cluster16, next_cluster32, cluster_eof,
  cluster_free,
}
use libfat.Fat.Table.{
  fat_byte, table, raw_entry, link, IsKnown, HasEntry, IsFat, first_byte, entry_bytes,
}
use libfat.Fat.Entry.Places.{
  byte_place, sector_in, next_place-byte_place, place12-byte_place, place16-byte_place,
  place32-byte_place, byte_later, mod_bounds,
}

module _ (store : SectorStore) (size : ℕ) (p : Partition)
    (laws : IsStore store size p.bytes_per_sector) (fat : IsFat p size) where
  open laws use {Holds}

  -- Reading one byte of the table.
  read_byte :
      (st : store.State) (sectors : Sectors) (v a : ℕ)
      → Holds st sectors
      → a < p.fat.sectors_per_fat * p.bytes_per_sector
      → let r =
          store.read_little_endian_value st v (byte_place p a).sector (byte_place p a).offset 1 in
        (r.value ≡ fat_byte sectors p a) × (fat_byte sectors p a < 256) × Holds r.state sectors
  read_byte st sectors v a h lt =
      let (ok, value, h') =
        laws.reads_value st sectors v (byte_place p a).sector (byte_place p a).offset 1 h
          (sector_in p size fat a lt)
          (omega (arith, mod_bounds a p.bytes_per_sector (omega (arith, fat.some_bytes))))
          (inl refl) in
      (value, laws.bytes st sectors h _ _, h')

  -- What the caller is to get.
  abbrev Links : Sectors → ℕ → FsType → ℕ × store.State → Type 0
  Links sectors cluster ty r =
      (r.0 ≡ link ty (raw_entry ty (fat_byte sectors p) cluster)) × Holds r.1 sectors

  next_cluster12-Links :
      (st : store.State) (sectors : Sectors) (cluster : ℕ)
      → Holds st sectors
      → cluster < 2 ^ 28
      → cluster * 3 / 2 + 2 ≤ p.fat.sectors_per_fat * p.bytes_per_sector
      → Links sectors cluster fs_fat12 (next_cluster12 store p st cluster)
  unfolding next_cluster12
  next_cluster12-Links st sectors cluster h small inside =
      let (lo, b, h') = read_byte st sectors cluster_free (cluster * 3 / 2) h (omega arith) in
      let st' =
        (store.read_little_endian_value st cluster_free (byte_place p (cluster * 3 / 2)).sector
          (byte_place p (cluster * 3 / 2)).offset 1).state in
      let (hi, b', h'') = read_byte st' sectors 0 (cluster * 3 / 2 + 1) h' (omega arith) in
      rw
        (
          place12-byte_place p size fat cluster small (omega arith),
          next_place-byte_place p size fat (cluster * 3 / 2) (omega arith),
          lo,
          hi,
        )
        (next12 _ _ cluster b b', h'')
    where
      next12 :
          (x y c : ℕ)
          → x < 256
          → y < 256
          → (let next =
                if bit_and c 1 == 0
                then bit_and (bit_or x (u32 (y * 2 ^ 8))) 0x0FFF
                else bit_or x (u32 (y * 2 ^ 8)) / 2 ^ 4 in
              if leb 0x0FF7 next then cluster_eof else next)
            ≡ link fs_fat12 (if c % 2 == 0 then (x + y * 256) % 4096 else (x + y * 256) / 16)
      next12 x y c hx hy =
          ground (arith, bit_and_mask 1 c, bit_or_low 8 x y, bit_and_mask 12 (x + y * 256))

  next_cluster16-Links :
      (st : store.State) (sectors : Sectors) (cluster : ℕ)
      → Holds st sectors
      → cluster < 2 ^ 28
      → cluster * 2 + 2 ≤ p.fat.sectors_per_fat * p.bytes_per_sector
      → Links sectors cluster fs_fat16 (next_cluster16 store p st cluster)
  unfolding next_cluster16
  next_cluster16-Links st sectors cluster h small inside =
      let (at, fits) = place16-byte_place p size fat cluster small (omega arith) in
      let (ok, value, h') =
        laws.reads_value st sectors cluster_free (byte_place p (cluster * 2)).sector
          (byte_place p (cluster * 2)).offset 2 h (sector_in p size fat (cluster * 2) (omega arith))
          fits (inr (inl refl)) in
      let (e, e') = byte_later (cluster * 2) 1 p.bytes_per_sector (omega arith) in
      rw at (ground (arith, value, e, e'), h')

  next_cluster32-Links :
      (st : store.State) (sectors : Sectors) (cluster : ℕ)
      → Holds st sectors
      → cluster < 2 ^ 28
      → cluster * 4 + 4 ≤ p.fat.sectors_per_fat * p.bytes_per_sector
      → Links sectors cluster fs_fat32 (next_cluster32 store p st cluster)
  unfolding next_cluster32
  next_cluster32-Links st sectors cluster h small inside =
      let (at, fits) = place32-byte_place p size fat cluster small (omega arith) in
      let (ok, value, h') =
        laws.reads_value st sectors cluster_free (byte_place p (cluster * 4)).sector
          (byte_place p (cluster * 4)).offset 4 h (sector_in p size fat (cluster * 4) (omega arith))
          fits (inr (inr refl)) in
      let one = byte_later (cluster * 4) 1 p.bytes_per_sector (omega arith) in
      let two = byte_later (cluster * 4) 2 p.bytes_per_sector (omega arith) in
      let three = byte_later (cluster * 4) 3 p.bytes_per_sector (omega arith) in
      rw at (ground (arith, value, one, two, three), h')

  next_cluster_of-Links :
      (ty : FsType) (st : store.State) (sectors : Sectors) (cluster : ℕ)
      → IsKnown ty
      → Holds st sectors
      → cluster < 2 ^ 28
      → first_byte ty cluster + entry_bytes ty ≤ p.fat.sectors_per_fat * p.bytes_per_sector
      → Links sectors cluster ty (next_cluster_of store ty p st cluster)
  unfolding next_cluster_of
  next_cluster_of-Links fs_unknown st sectors cluster known h small inside = absurd known
  next_cluster_of-Links fs_fat12 st sectors cluster known h small inside =
      next_cluster12-Links st sectors cluster h small inside
  next_cluster_of-Links fs_fat16 st sectors cluster known h small inside =
      next_cluster16-Links st sectors cluster h small inside
  next_cluster_of-Links fs_fat32 st sectors cluster known h small inside =
      next_cluster32-Links st sectors cluster h small inside

  -- Over a store that keeps its laws, `_FAT_fat_nextCluster` returns the link that the bytes of the
  -- table spell for every cluster with an entry, whatever the width of the entries, and the store
  -- holds the same sectors afterwards.
  pub next_cluster-table :
      (st : store.State) (sectors : Sectors) (cluster : ℕ)
      → Holds st sectors
      → HasEntry p cluster
      → let r = next_cluster store p st cluster in
        (r.0 ≡ table sectors p cluster) × Holds r.1 sectors
  unfolding next_cluster table
  next_cluster-table st sectors cluster h entry = elim (Bool-cases (cluster == cluster_free)) [
    | inl free ↦ rw free (refl, h)
    | inr taken ↦ rw taken (
        next_cluster_of-Links p.filesys_type st sectors cluster fat.known h entry.small
          entry.inside)
  ]
