-- ===== src/Partition/Find.antt =====
-- `isValidMBR` and `FindFirstValidPartition_buf` of source/partition.c.
pub mod Valid
use libfat.Base.{
  ℕ, zero, suc, ◌+◌, ◌%◌, ◌^◌, Bool, true, false, not, ◌&&◌, ◌||◌, u32, ◌==◌, if◌then◌else◌, Buffer,
  memcpy,
}
use libfat.Base.Lists.{List, [], ◌∷◌}
use libfat.BitOps.{u8array_to_u32}
use libfat.Disc.{DiscInterface}

-- memcmp (b + o, bytes, sizeof (bytes)) == 0
unfoldable pub has_bytes : Buffer → ℕ → List ℕ → Bool
has_bytes b o [] = true
has_bytes b o (x ∷ xs) = b o == x && has_bytes b (o + 1) xs

-- "FAT", and the start of the boot sector of a DSi.
abbrev pub fat_sig : List ℕ
fat_sig = 0x46 ∷ 0x41 ∷ 0x54 ∷ []

abbrev pub fs_twl_sig : List ℕ
fs_twl_sig = 0xe9 ∷ 0x00 ∷ 0x00 ∷ 0x54 ∷ 0x57 ∷ 0x4c ∷ 0x20 ∷ 0x20 ∷ []

abbrev pub bpb_fat16_file_sys_type : ℕ
bpb_fat16_file_sys_type = 0x36

abbrev pub bpb_fat32_file_sys_type : ℕ
bpb_fat32_file_sys_type = 0x52

unfoldable pub is_valid_mbr : Buffer → Bool
unfolding has_bytes
is_valid_mbr b =
    has_bytes b bpb_fat16_file_sys_type fat_sig
    || has_bytes b bpb_fat32_file_sys_type fat_sig
    || has_bytes b 0 fs_twl_sig

module _ (disc : DiscInterface) where
  -- Where a step of the search is: whether the function returns, what, and what it changed.
  pub record Scan : Type 0 where
    pub stop : Bool
    pub lba : ℕ
    pub buffer : Buffer
    pub medium : disc.Medium

  -- A sector that may be the boot sector of a volume: read it, and stop on a failure or a hit.
  pub try_sector : disc.Medium → Buffer → ℕ → Scan
  unfolding is_valid_mbr
  try_sector m b lba =
      let r = disc.read_sectors m lba 1 b in
      if r.ok
      then record { stop = is_valid_mbr r.buffer; lba = lba; buffer = r.buffer; medium = r.medium }
      else record { stop = true; lba = 0; buffer = r.buffer; medium = r.medium }

  -- The loop over the logical drives of an extended partition, with `left` rounds to come.
  pub find_logical : ℕ → disc.Medium → Buffer → ℕ → ℕ → Scan
  unfolding try_sector
  find_logical zero m b part_lba next = record { stop = false; lba = 0; buffer = b; medium = m }
  find_logical (suc left) m b part_lba next =
      let r = disc.read_sectors m (u32 (part_lba + next)) 1 b in
      let lba2 = u32 (part_lba + next + u8array_to_u32 r.buffer 0x1C6) in
      let next' = u8array_to_u32 r.buffer 0x1D6 in
      let s = try_sector r.medium r.buffer lba2 in
      let rest = find_logical left s.medium s.buffer part_lba next' in
      if not r.ok
      then record { stop = true; lba = 0; buffer = r.buffer; medium = r.medium }
      else if s.stop || next' == 0
      then s
      else rest

  -- The body of the loop over the table, for the entry at `ptr`.
  pub try_entry : Buffer → ℕ → disc.Medium → Buffer → Scan
  unfolding is_valid_mbr find_logical try_sector
  try_entry table ptr m b =
      let lba = u8array_to_u32 table (ptr + 8) in
      if is_valid_mbr b
      then record { stop = true; lba = lba; buffer = b; medium = m }
      else if table (ptr + 4) == 0
      then record { stop = false; lba = 0; buffer = b; medium = m }
      else if table (ptr + 4) == 0x0F
      then find_logical 8 m b lba 0
      else try_sector m b lba

  pub find_in_table : ℕ → Buffer → ℕ → disc.Medium → Buffer → Scan
  unfolding try_entry
  find_in_table zero table ptr m b = record { stop = true; lba = 0; buffer = b; medium = m }
  find_in_table (suc left) table ptr m b =
      let s = try_entry table ptr m b in
      let rest = find_in_table left table (ptr + 16) s.medium s.buffer in if s.stop then s else rest

  -- 0 is "none found".
  pub find_first_valid_partition : disc.Medium → Buffer → Scan
  unfolding find_in_table
  find_first_valid_partition m b =
      let r = disc.read_sectors m 0 1 b in
      if r.ok
      then find_in_table 4 (memcpy (λ i. 0) 0 r.buffer 0x1BE 64) 0 r.medium r.buffer
      else record { stop = true; lba = 0; buffer = r.buffer; medium = r.medium }
