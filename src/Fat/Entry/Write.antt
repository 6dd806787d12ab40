-- ===== src/Fat/Entry/Write.antt =====
-- `_FAT_fat_writeFatEntry` changes one entry of the table, and no other.
use libfat.Base.{
  ℕ, ◌+◌, ◌*◌, ◌/◌, ◌%◌, ◌^◌, ◌≤◌, ◌<◌, ◌≡◌, ◌≢◌, ◌⊎◌, inl, true, false, ◌||◌, arith, u32, ltb,
  ◌==◌, if◌then◌else◌, refl, ◌∙◌, bit_and, bit_or, bit_or_low, bit_or_high, bit_and_mask,
  bit_and_high,
}
use native.Mathlib.Decide.{ℕ_discrete}
use libfat.Cache.Invariant.{Sectors}
use libfat.Store.{SectorStore, IsStore}
use libfat.Partition.State.{FsType, fs_unknown, fs_fat12, fs_fat16, fs_fat32, Partition}
use libfat.Fat.Entry.{write_fat_entry, write_entry_of, write_odd12, write_even12, cluster_first}
use libfat.Fat.Table.{fat_byte, table, link, IsKnown, IsFat, first_byte, entry_bytes, entry_values}
use libfat.Fat.Entry.Places.{
  byte_place, next_place-byte_place, place12-byte_place, mod_bounds, has_entry,
}
use libfat.Fat.Entry.Bytes.{raw12-write, Bytes12}
use libfat.Fat.Entry.Put
use libfat.Fat.Entry.Put.{Wrote}
use libfat.Fat.Entry.Wide.{write16-Wrote, write32-Wrote}

module _ (store : SectorStore) (size : ℕ) (p : Partition)
    (laws : IsStore store size p.bytes_per_sector) (fat : IsFat p size) where
  open laws use {Holds}

  abbrev room : ℕ
  room = Put.room store size p laws fat

  abbrev put_at : Sectors → ℕ → ℕ → ℕ → Sectors
  put_at = Put.put_at store size p laws fat

  abbrev Writes : FsType → Sectors → ℕ → ℕ → store.State → Type 0
  Writes = Wrote store size p laws fat

  one_fits : (a : ℕ) → a % p.bytes_per_sector + 1 ≤ p.bytes_per_sector
  one_fits a = omega (arith, mod_bounds a p.bytes_per_sector (Put.pos store size p laws fat))

  -- Two bytes of the table, one after the other.
  two_bytes :
      (sectors : Sectors) (a x y i : ℕ)
      → fat_byte (put_at (put_at sectors a 1 x) (a + 1) 1 y) p i
        ≡ (if i == a then x % 256 else if i == a + 1 then y % 256 else fat_byte sectors p i)
  two_bytes sectors a x y i =
      let fits = one_fits a in
      let fits' = one_fits (a + 1) in
      ground (
        arith,
        Put.put_at-byte store size p laws fat sectors a 1 x i fits,
        Put.put_at-byte store size p laws fat (put_at sectors a 1 x) (a + 1) 1 y i fits',
      )

  two_bytes_outside :
      (sectors : Sectors) (a x y s o : ℕ)
      → a + 1 < room
      → (s < p.fat.fat_start) ⊎ (p.fat.fat_start + p.fat.sectors_per_fat ≤ s)
      → put_at (put_at sectors a 1 x) (a + 1) 1 y s o ≡ sectors s o
  two_bytes_outside sectors a x y s o h out =
      Put.put_at-outside store size p laws fat (put_at sectors a 1 x) (a + 1) 1 y s o h out
      ∙ Put.put_at-outside store size p laws fat sectors a 1 x s o (omega arith) out

  -- The bytes that the two branches for 12 bits compute, from the byte that they keep a nibble of.
  odd_bytes :
      (v old : ℕ)
      → let both = bit_or (u32 (v * 2 ^ 4)) (bit_and old 0x0F) in
        (bit_and both 0xFF % 256 ≡ v % 16 * 16 + old % 16)
        × (bit_and (both / 2 ^ 8) 0xFF % 256 ≡ v / 16 % 256)
  odd_bytes v old =
      let m : bit_and old 0x0F ≡ old % 16 = bit_and_mask 4 old in
      let shift : u32 (v * 2 ^ 4) ≡ v % 2 ^ 28 * 2 ^ 4 = omega arith in
      let sum : bit_or (v % 2 ^ 28 * 2 ^ 4) (old % 16) ≡ v % 2 ^ 28 * 2 ^ 4 + old % 16 =
        bit_or_high 4 (v % 2 ^ 28) (old % 16) (omega arith) in
      rw (m, shift, sum)
        (
          omega (arith, bit_and_mask 8 (v % 2 ^ 28 * 2 ^ 4 + old % 16)),
          omega (arith, bit_and_mask 8 ((v % 2 ^ 28 * 2 ^ 4 + old % 16) / 2 ^ 8)),
        )

  even_byte :
      (v old : ℕ)
      → old < 256
      → bit_or (bit_and (v / 2 ^ 8) 0x0F) (bit_and old 0xF0) % 256 ≡ v / 256 % 16 + old / 16 * 16
  even_byte v old h =
      let m : bit_and (v / 2 ^ 8) 0x0F ≡ v / 2 ^ 8 % 16 = bit_and_mask 4 (v / 2 ^ 8) in
      rw (m, bit_and_high old h)
        (omega (arith, bit_or_low 4 (v / 2 ^ 8 % 16) (old / 16) (omega arith)))

  -- A write of two bytes that are what the entry is to be.
  two-Wrote :
      (st : store.State) (sectors : Sectors) (cluster value x y : ℕ)
      → cluster * 3 / 2 + 1 < room
      → ((i : ℕ) → fat_byte sectors p i < 256)
      → Bytes12 cluster value
          (fat_byte sectors p (cluster * 3 / 2))
          (fat_byte sectors p (cluster * 3 / 2 + 1))
          (x % 256)
          (y % 256)
      → Holds st (put_at (put_at sectors (cluster * 3 / 2) 1 x) (cluster * 3 / 2 + 1) 1 y)
      → Writes fs_fat12 sectors cluster value st
  two-Wrote st sectors cluster value x y inside byte two h =
      let a = cluster * 3 / 2 in
      let after = put_at (put_at sectors a 1 x) (a + 1) 1 y in
      let lo : fat_byte after p a ≡ x % 256 = two_bytes sectors a x y a ∙ ground arith in
      let hi : fat_byte after p (a + 1) ≡ y % 256 =
        two_bytes sectors a x y (a + 1) ∙ ground arith in
      record {
        after = after;
        holds = h;
        entry = λ d.
            raw12-write (fat_byte sectors p) (fat_byte after p) cluster d value byte
              (rw (lo, hi) two) (λ i ne ne'. two_bytes sectors a x y i ∙ ground arith);
        outside = λ s o out. two_bytes_outside sectors a x y s o inside out;
      }

  write_odd12-Wrote :
      (st : store.State) (sectors : Sectors) (cluster value : ℕ)
      → Holds st sectors
      → cluster % 2 ≢ 0
      → cluster * 3 / 2 + 1 < room
      → Writes fs_fat12 sectors cluster value
          (write_odd12 store p st (byte_place p (cluster * 3 / 2)) value)
  unfolding write_odd12
  write_odd12-Wrote st sectors cluster value h odd inside =
      let a = cluster * 3 / 2 in
      let (old, small, h') = Put.read_at store size p laws fat st sectors 0 a h (omega arith) in
      let keep = fat_byte sectors p a in
      let both = bit_or (u32 (value * 2 ^ 4)) (bit_and keep 0x0F) in
      let x = bit_and both 0xFF in
      let y = bit_and (both / 2 ^ 8) 0xFF in
      let h'' =
        Put.write_at store size p laws fat _ sectors x a 1 h' (omega arith) (one_fits a)
          (inl refl) in
      let h''' =
        Put.write_at store size p laws fat _ (put_at sectors a 1 x) y (a + 1) 1 h'' inside
          (one_fits (a + 1)) (inl refl) in
      let bytes = odd_bytes value keep in
      let e : (cluster % 2 == 0) ≡ false = ground arith in
      rw (next_place-byte_place p size fat a inside, old, write_odd12)
        (two-Wrote _ sectors cluster value x y inside (λ i. laws.bytes st sectors h _ _)
          (rw e bytes) h''')

  write_even12-Wrote :
      (st : store.State) (sectors : Sectors) (cluster value : ℕ)
      → Holds st sectors
      → cluster % 2 ≡ 0
      → cluster * 3 / 2 + 1 < room
      → Writes fs_fat12 sectors cluster value
          (write_even12 store p st (byte_place p (cluster * 3 / 2)) value)
  unfolding write_even12
  write_even12-Wrote st sectors cluster value h even inside =
      let a = cluster * 3 / 2 in
      let h' =
        Put.write_at store size p laws fat st sectors value a 1 h (omega arith) (one_fits a)
          (inl refl) in
      let (old, small, h'') =
        Put.read_at store size p laws fat _ (put_at sectors a 1 value) 0 (a + 1) h' inside in
      let kept : fat_byte (put_at sectors a 1 value) p (a + 1) ≡ fat_byte sectors p (a + 1) =
        Put.put_at-byte store size p laws fat sectors a 1 value (a + 1) (one_fits a)
        ∙ ground arith in
      let keep = fat_byte sectors p (a + 1) in
      let y = bit_or (bit_and (value / 2 ^ 8) 0x0F) (bit_and keep 0xF0) in
      let h''' =
        Put.write_at store size p laws fat _ (put_at sectors a 1 value) y (a + 1) 1 h'' inside
          (one_fits (a + 1)) (inl refl) in
      let e : (cluster % 2 == 0) ≡ true = ground arith in
      rw (next_place-byte_place p size fat a inside, old, kept, write_even12)
        (two-Wrote _ sectors cluster value value y inside (λ i. laws.bytes st sectors h _ _)
          (rw e (refl, even_byte value keep (laws.bytes st sectors h _ _))) h''')

  write_entry_of-Wrote :
      (ty : FsType) (st : store.State) (sectors : Sectors) (cluster value : ℕ)
      → IsKnown ty
      → Holds st sectors
      → cluster < 2 ^ 28
      → first_byte ty cluster + entry_bytes ty ≤ room
      → ((write_entry_of store ty p st cluster value).0 ≡ true)
        × Writes ty sectors cluster value (write_entry_of store ty p st cluster value).1
  unfolding write_entry_of
  write_entry_of-Wrote fs_unknown st sectors cluster value known h small inside = absurd known
  write_entry_of-Wrote fs_fat12 st sectors cluster value known h small inside =
      let at = place12-byte_place p size fat cluster small (omega arith) in
      let m : bit_and cluster 1 ≡ cluster % 2 = bit_and_mask 1 cluster in
      elim (ℕ_discrete (cluster % 2) 0) [
        | yes even ↦
            let t : (cluster % 2 == 0) ≡ true = ground arith in
            (refl, rw (at, m, t) (write_even12-Wrote st sectors cluster value h even (omega arith)))
        | no odd ↦
            let t : (cluster % 2 == 0) ≡ false = ground arith in
            (refl, rw (at, m, t) (write_odd12-Wrote st sectors cluster value h odd (omega arith)))
      ]
  write_entry_of-Wrote fs_fat16 st sectors cluster value known h small inside =
      (refl, write16-Wrote store size p laws fat st sectors cluster value h small inside)
  write_entry_of-Wrote fs_fat32 st sectors cluster value known h small inside =
      (refl, write32-Wrote store size p laws fat st sectors cluster value h small inside)

  -- For a cluster of the partition, whatever the width of the entries, `_FAT_fat_writeFatEntry`
  -- returns true and sets that cluster's link to the value cut to the width; the link of every
  -- other cluster stays (also where two entries share a byte), and so does all outside the table.
  pub write_fat_entry-table :
      (st : store.State) (sectors : Sectors) (cluster value : ℕ)
      → Holds st sectors
      → cluster_first ≤ cluster
      → cluster ≤ p.fat.last_cluster
      → let r = write_fat_entry store p st cluster value in
        (r.0 ≡ true)
        × (after : Sectors) × Holds r.1 after
        × ((d : ℕ)
            → table after p d ≡ (
                if d == cluster
                then link p.filesys_type (value % entry_values p.filesys_type)
                else table sectors p d))
        × ((s o : ℕ)
            → (s < p.fat.fat_start) ⊎ (p.fat.fat_start + p.fat.sectors_per_fat ≤ s)
            → after s o ≡ sectors s o)
  unfolding write_fat_entry table
  write_fat_entry-table st sectors cluster value h lo hi =
      let e = has_entry p size fat cluster hi in
      let (ok, w) =
        write_entry_of-Wrote p.filesys_type st sectors cluster value fat.known h e.small e.inside in
      let t : (ltb cluster cluster_first || ltb p.fat.last_cluster cluster) ≡ false =
        ground arith in
      rw t (ok, w.after, w.holds, (λ d. ground (arith, w.entry d)), w.outside)
