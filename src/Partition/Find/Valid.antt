-- ===== src/Partition/Find/Valid.antt =====
-- What `FindFirstValidPartition_buf` leaves in the buffer where it finds a volume.
use libfat.Base.{
  ℕ, zero, suc, ◌+◌, ◌≡◌, ◌⊎◌, inl, inr, true, false, ◌||◌, ◌==◌, Buffer, memcpy, Bool-cases, refl,
  u32,
}
use libfat.BitOps.{u8array_to_u32}
use libfat.Disc.{DiscInterface}
use libfat.Partition.Find.{
  is_valid_mbr, Scan, try_sector, find_logical, try_entry, find_in_table,
  find_first_valid_partition,
}

module _ (disc : DiscInterface) where
  -- A step that stops has failed, or the buffer holds the boot sector of a volume.
  abbrev pub IsSearched : Scan disc → Type 0
  IsSearched s = (s.stop ≡ false) ⊎ ((s.lba ≡ 0) ⊎ (is_valid_mbr s.buffer ≡ true))

  try_sector-IsSearched :
      (m : disc.Medium) (b : Buffer) (lba : ℕ) → IsSearched (try_sector disc m b lba)
  unfolding try_sector
  try_sector-IsSearched m b lba =
      let r = disc.read_sectors m lba 1 b in
      elim (Bool-cases r.ok) [
        | inl ok ↦ rw ok (elim (Bool-cases (is_valid_mbr r.buffer)) [
          | inl valid ↦ inr (inr valid)
          | inr other ↦ inl other
        ])
        | inr failed ↦ rw failed (inr (inl refl))
      ]

  find_logical-IsSearched :
      (left : ℕ) (m : disc.Medium) (b : Buffer) (part_lba next : ℕ)
      → IsSearched (find_logical disc left m b part_lba next)
  unfolding find_logical
  find_logical-IsSearched zero m b part_lba next = inl refl
  find_logical-IsSearched (suc left) m b part_lba next =
      let r = disc.read_sectors m (u32 (part_lba + next)) 1 b in
      let lba2 = u32 (part_lba + next + u8array_to_u32 r.buffer 0x1C6) in
      let next' = u8array_to_u32 r.buffer 0x1D6 in
      let s = try_sector disc r.medium r.buffer lba2 in
      elim (Bool-cases r.ok) [
        | inl ok ↦ elim (Bool-cases (s.stop || next' == 0)) [
          | inl ends ↦ rw (ok, ends) (try_sector-IsSearched r.medium r.buffer lba2)
          | inr more ↦ rw (ok, more) (find_logical-IsSearched left s.medium s.buffer part_lba next')
        ]
        | inr failed ↦ rw failed (inr (inl refl))
      ]

  try_entry-IsSearched :
      (table : Buffer) (ptr : ℕ) (m : disc.Medium) (b : Buffer)
      → IsSearched (try_entry disc table ptr m b)
  unfolding try_entry
  try_entry-IsSearched table ptr m b = elim (Bool-cases (is_valid_mbr b)) [
    | inl valid ↦ rw valid (inr (inr valid))
    | inr other ↦ elim (Bool-cases (table (ptr + 4) == 0)) [
      | inl unused ↦ rw (other, unused) (inl refl)
      | inr used ↦ elim (Bool-cases (table (ptr + 4) == 0x0F)) [
        | inl extended ↦ rw (other, used, extended) (find_logical-IsSearched 8 m b _ 0)
        | inr plain ↦ rw (other, used, plain) (try_sector-IsSearched m b _)
      ]
    ]
  ]

  find_in_table-IsSearched :
      (left : ℕ) (table : Buffer) (ptr : ℕ) (m : disc.Medium) (b : Buffer)
      → let s = find_in_table disc left table ptr m b in
        (s.stop ≡ true) × ((s.lba ≡ 0) ⊎ (is_valid_mbr s.buffer ≡ true))
  unfolding find_in_table
  find_in_table-IsSearched zero table ptr m b = (refl, inl refl)
  find_in_table-IsSearched (suc left) table ptr m b =
      let s = try_entry disc table ptr m b in
      elim (Bool-cases s.stop) [
        | inl stops ↦ rw stops (
          stops,
          elim (try_entry-IsSearched table ptr m b) [ inl goes ↦ absurd cc | inr found ↦ found ],
        )
        | inr goes ↦ rw goes (find_in_table-IsSearched left table (ptr + 16) s.medium s.buffer)
      ]

  -- For every medium and driver, `FindFirstValidPartition_buf` returns 0, or it leaves in the
  -- buffer a sector with one of the three signatures of a volume.
  pub find_first_valid_partition_lem :
      (m : disc.Medium) (b : Buffer)
      → let s = find_first_valid_partition disc m b in (s.lba ≡ 0) ⊎ (is_valid_mbr s.buffer ≡ true)
  unfolding find_first_valid_partition
  find_first_valid_partition_lem m b =
      let r = disc.read_sectors m 0 1 b in
      elim (Bool-cases r.ok) [
        | inl ok ↦
            rw ok
              (find_in_table-IsSearched 4 (memcpy (λ i. 0) 0 r.buffer 0x1BE 64) 0 r.medium
                r.buffer).1
        | inr failed ↦ rw failed (inl refl)
      ]
