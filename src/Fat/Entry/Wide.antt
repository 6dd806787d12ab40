-- ===== src/Fat/Entry/Wide.antt =====
-- Entries of 16 and 32 bits are written as one value.
use libfat.Base.{ℕ, ◌+◌, ◌*◌, ◌^◌, ◌≤◌, ◌<◌, inl, inr, arith, refl}
use libfat.Cache.Invariant.{Sectors}
use libfat.Store.{SectorStore, IsStore}
use libfat.Partition.State.{FsType, fs_fat16, fs_fat32, Partition}
use libfat.Fat.Entry.{place16, place32}
use libfat.Fat.Table.{fat_byte, IsFat}
use libfat.Fat.Entry.Places.{place16-byte_place, place32-byte_place}
use libfat.Fat.Entry.Bytes.{raw16-write, raw32-write}
use libfat.Fat.Entry.Put
use libfat.Fat.Entry.Put.{Wrote}

module _ (store : SectorStore) (size : ℕ) (p : Partition)
    (laws : IsStore store size p.bytes_per_sector) (fat : IsFat p size) where
  open laws use {Holds}

  abbrev room : ℕ
  room = Put.room store size p laws fat

  abbrev put_at : Sectors → ℕ → ℕ → ℕ → Sectors
  put_at = Put.put_at store size p laws fat

  abbrev Writes : FsType → Sectors → ℕ → ℕ → store.State → Type 0
  Writes = Wrote store size p laws fat

  pub write16-Wrote :
      (st : store.State) (sectors : Sectors) (cluster value : ℕ)
      → Holds st sectors
      → cluster < 2 ^ 28
      → cluster * 2 + 2 ≤ room
      → Writes fs_fat16 sectors cluster value
          (store.write_little_endian_value st value
            (place16 p cluster).sector
            (place16 p cluster).offset
            2).state
  write16-Wrote st sectors cluster value h small inside =
      let (at, fits) = place16-byte_place p size fat cluster small (omega arith) in
      rw at (record {
        after = put_at sectors (cluster * 2) 2 value;
        holds =
            Put.write_at store size p laws fat st sectors value (cluster * 2) 2 h (omega arith) fits
              (inr (inl refl));
        entry = λ d.
            raw16-write (fat_byte sectors p) _ cluster d value
              (λ i. Put.put_at-byte store size p laws fat sectors (cluster * 2) 2 value i fits);
        outside = λ s o out.
            Put.put_at-outside store size p laws fat sectors (cluster * 2) 2 value s o (omega arith)
              out;
      })

  pub write32-Wrote :
      (st : store.State) (sectors : Sectors) (cluster value : ℕ)
      → Holds st sectors
      → cluster < 2 ^ 28
      → cluster * 4 + 4 ≤ room
      → Writes fs_fat32 sectors cluster value
          (store.write_little_endian_value st value
            (place32 p cluster).sector
            (place32 p cluster).offset
            4).state
  write32-Wrote st sectors cluster value h small inside =
      let (at, fits) = place32-byte_place p size fat cluster small (omega arith) in
      rw at (record {
        after = put_at sectors (cluster * 4) 4 value;
        holds =
            Put.write_at store size p laws fat st sectors value (cluster * 4) 4 h (omega arith) fits
              (inr (inr refl));
        entry = λ d.
            raw32-write (fat_byte sectors p) _ cluster d value
              (λ i. Put.put_at-byte store size p laws fat sectors (cluster * 4) 4 value i fits);
        outside = λ s o out.
            Put.put_at-outside store size p laws fat sectors (cluster * 4) 4 value s o (omega arith)
              out;
      })
