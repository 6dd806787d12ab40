-- ===== src/Fat/Entry/Put.antt =====
-- Reading and writing bytes of the table, and what a write of an entry is to do.
use libfat.Base.{
  ℕ, ◌+◌, ◌-◌, ◌*◌, ◌%◌, ◌≤◌, ◌<◌, ◌≡◌, ◌⊎◌, inl, ◌&&◌, arith, ltb, leb, ◌==◌, if◌then◌else◌, refl,
}
use libfat.Cache.Invariant.{Sectors}
use libfat.Cache.Sector.Values.{IsWidth, put_value, byte_of}
use libfat.Store.{SectorStore, IsStore}
use libfat.Partition.State.{FsType, Partition}
use libfat.Fat.Table.{fat_byte, raw_entry, IsFat, entry_values}
use libfat.Fat.Entry.Places.{byte_place, sector_in, mod_bounds, div_lt}
use libfat.Fat.Entry.Bytes.{fat_byte-put_value}

module _ (store : SectorStore) (size : ℕ) (p : Partition)
    (laws : IsStore store size p.bytes_per_sector) (fat : IsFat p size) where
  open laws use {Holds}

  abbrev pub room : ℕ
  room = p.fat.sectors_per_fat * p.bytes_per_sector

  pub pos : 0 < p.bytes_per_sector
  pos = omega (arith, fat.some_bytes)

  -- What the write of `value` to the entry of `cluster` is to do: `st'` holds sectors in which only
  -- that entry spells another number, and which are the same outside the table.
  pub record Wrote (ty : FsType) (before : Sectors) (cluster value : ℕ) (st' : store.State)
      : Type 0 where
    pub after : Sectors
    pub holds : Holds st' after
    pub entry :
        (d : ℕ)
        → raw_entry ty (fat_byte after p) d
          ≡ (if d == cluster then value % entry_values ty else raw_entry ty (fat_byte before p) d)
    pub outside :
        (s o : ℕ)
        → (s < p.fat.fat_start) ⊎ (p.fat.fat_start + p.fat.sectors_per_fat ≤ s)
        → after s o ≡ before s o

  -- One value of `n` bytes at byte `a` of the table.
  pub put_at : Sectors → ℕ → ℕ → ℕ → Sectors
  put_at sectors a n v = put_value sectors (byte_place p a).sector (byte_place p a).offset n v

  pub put_at-byte :
      (sectors : Sectors) (a n v b : ℕ)
      → a % p.bytes_per_sector + n ≤ p.bytes_per_sector
      → fat_byte (put_at sectors a n v) p b
        ≡ (if leb a b && ltb b (a + n) then byte_of v (b - a) else fat_byte sectors p b)
  unfolding put_at
  put_at-byte sectors a n v b fits = fat_byte-put_value sectors p a n v b pos fits

  pub put_at-outside :
      (sectors : Sectors) (a n v s o : ℕ)
      → a < room
      → (s < p.fat.fat_start) ⊎ (p.fat.fat_start + p.fat.sectors_per_fat ≤ s)
      → put_at sectors a n v s o ≡ sectors s o
  unfolding put_at
  put_at-outside sectors a n v s o h out =
      let lt = div_lt a p.bytes_per_sector p.fat.sectors_per_fat pos h in ground arith

  pub write_at :
      (st : store.State) (sectors : Sectors) (v a n : ℕ)
      → Holds st sectors
      → a < room
      → a % p.bytes_per_sector + n ≤ p.bytes_per_sector
      → IsWidth n
      → Holds
          (store.write_little_endian_value st v
            (byte_place p a).sector
            (byte_place p a).offset
            n).state
          (put_at sectors a n v)
  unfolding put_at
  write_at st sectors v a n h lt fits width =
      (laws.writes_value st sectors v (byte_place p a).sector (byte_place p a).offset n h
        (sector_in p size fat a lt) fits width).1

  pub read_at :
      (st : store.State) (sectors : Sectors) (v a : ℕ)
      → Holds st sectors
      → a < room
      → let r =
          store.read_little_endian_value st v (byte_place p a).sector (byte_place p a).offset 1 in
        (r.value ≡ fat_byte sectors p a) × (fat_byte sectors p a < 256) × Holds r.state sectors
  read_at st sectors v a h lt =
      let (ok, value, h') =
        laws.reads_value st sectors v (byte_place p a).sector (byte_place p a).offset 1 h
          (sector_in p size fat a lt) (omega (arith, mod_bounds a p.bytes_per_sector pos))
          (inl refl) in
      (value, laws.bytes st sectors h _ _, h')
