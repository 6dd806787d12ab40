-- ===== src/Fat/Entry.antt =====
-- `_FAT_fat_nextCluster` and `_FAT_fat_writeFatEntry`: one entry of the table.
pub mod Places
pub mod Next
mod Bytes
mod Put
mod Wide
pub mod Write
use libfat.Base.{
  ℕ, ◌+◌, ◌-◌, ◌*◌, ◌/◌, ◌%◌, ◌^◌, Bool, true, false, bit_and, bit_or, u32, ltb, leb, ◌==◌, ◌||◌,
  ◌&&◌, if◌then◌else◌,
}
use libfat.Store.{SectorStore}
use libfat.Partition.State.{FsType, fs_unknown, fs_fat12, fs_fat16, fs_fat32, Partition}

abbrev pub cluster_eof : ℕ
cluster_eof = 0x0FFFFFFF

abbrev pub cluster_free : ℕ
cluster_free = 0

abbrev pub cluster_first : ℕ
cluster_first = 2

abbrev pub cluster_error : ℕ
cluster_error = 0xFFFFFFFF

unfoldable pub cluster_to_sector : Partition → ℕ → ℕ
cluster_to_sector p cluster =
    if leb cluster_first cluster
    then u32 ((cluster - cluster_first) * p.sectors_per_cluster + p.data_start)
    else p.root_dir_start

unfoldable pub is_valid_cluster : Partition → ℕ → Bool
is_valid_cluster p cluster = leb cluster_first cluster && leb cluster p.fat.last_cluster

-- Where a byte is read or written.
pub record Place : Type 0 where
  pub sector : ℕ
  pub offset : ℕ

-- The byte that holds the start of an entry, of 12, 16 and 32 bits.
pub place12 : Partition → ℕ → Place
place12 p cluster = record {
  sector = u32 (p.fat.fat_start + u32 (cluster * 3) / 2 / p.bytes_per_sector);
  offset = u32 (cluster * 3) / 2 % p.bytes_per_sector;
}

pub place16 : Partition → ℕ → Place
place16 p cluster = record {
  sector = u32 (p.fat.fat_start + u32 (cluster * 2) / p.bytes_per_sector);
  offset = cluster % (p.bytes_per_sector / 2) * 2;
}

pub place32 : Partition → ℕ → Place
place32 p cluster = record {
  sector = u32 (p.fat.fat_start + u32 (cluster * 4) / p.bytes_per_sector);
  offset = cluster % (p.bytes_per_sector / 4) * 4;
}

-- offset++; if (offset >= bytesPerSector) { offset = 0; sector++; }
pub next_place : Partition → Place → Place
next_place p at =
    if leb p.bytes_per_sector (at.offset + 1)
    then record { sector = u32 (at.sector + 1); offset = 0 }
    else record at { offset = at.offset + 1 }

module _ (store : SectorStore) where
  open store use {State, read_little_endian_value, write_little_endian_value}

  next_cluster12 : Partition → State → ℕ → ℕ × State
  next_cluster12 p st cluster =
      let at = place12 p cluster in
      let lo = read_little_endian_value st cluster_free at.sector at.offset 1 in
      let at' = next_place p at in
      let hi = read_little_endian_value lo.state 0 at'.sector at'.offset 1 in
      let both = bit_or lo.value (u32 (hi.value * 2 ^ 8)) in
      let next = if bit_and cluster 1 == 0 then bit_and both 0x0FFF else both / 2 ^ 4 in
      (if leb 0x0FF7 next then cluster_eof else next, hi.state)

  next_cluster16 : Partition → State → ℕ → ℕ × State
  next_cluster16 p st cluster =
      let at = place16 p cluster in
      let r = read_little_endian_value st cluster_free at.sector at.offset 2 in
      (if leb 0xFFF7 r.value then cluster_eof else r.value, r.state)

  next_cluster32 : Partition → State → ℕ → ℕ × State
  next_cluster32 p st cluster =
      let at = place32 p cluster in
      let r = read_little_endian_value st cluster_free at.sector at.offset 4 in
      (if leb 0x0FFFFFF7 r.value then cluster_eof else r.value, r.state)

  -- The switch over the type of the file system.
  next_cluster_of : FsType → Partition → State → ℕ → ℕ × State
  unfolding next_cluster12 next_cluster16 next_cluster32
  next_cluster_of fs_unknown p st cluster = (cluster_error, st)
  next_cluster_of fs_fat12 p st cluster = next_cluster12 p st cluster
  next_cluster_of fs_fat16 p st cluster = next_cluster16 p st cluster
  next_cluster_of fs_fat32 p st cluster = next_cluster32 p st cluster

  pub next_cluster : Partition → State → ℕ → ℕ × State
  unfolding next_cluster_of
  next_cluster p st cluster =
      if cluster == cluster_free
      then (cluster_free, st)
      else next_cluster_of p.filesys_type p st cluster

  -- An odd entry: the high nibble of one byte and the whole of the next. `oldValue` has no value
  -- before the read; 0 stands for it.
  write_odd12 : Partition → State → Place → ℕ → State
  write_odd12 p st at value =
      let old = read_little_endian_value st 0 at.sector at.offset 1 in
      let both = bit_or (u32 (value * 2 ^ 4)) (bit_and old.value 0x0F) in
      let st' =
        (write_little_endian_value old.state (bit_and both 0xFF) at.sector at.offset 1).state in
      let at' = next_place p at in
      (write_little_endian_value st' (bit_and (both / 2 ^ 8) 0xFF) at'.sector at'.offset 1).state

  -- An even entry: the whole of one byte and the low nibble of the next.
  write_even12 : Partition → State → Place → ℕ → State
  write_even12 p st at value =
      let st' = (write_little_endian_value st value at.sector at.offset 1).state in
      let at' = next_place p at in
      let old = read_little_endian_value st' 0 at'.sector at'.offset 1 in
      let nibbles = bit_or (bit_and (value / 2 ^ 8) 0x0F) (bit_and old.value 0xF0) in
      (write_little_endian_value old.state nibbles at'.sector at'.offset 1).state

  write_entry_of : FsType → Partition → State → ℕ → ℕ → Bool × State
  unfolding write_odd12 write_even12
  write_entry_of fs_unknown p st cluster value = (false, st)
  write_entry_of fs_fat12 p st cluster value = (
    true,
    if bit_and cluster 1 == 0
        then write_even12 p st (place12 p cluster) value
        else write_odd12 p st (place12 p cluster) value,
  )
  write_entry_of fs_fat16 p st cluster value =
      let at = place16 p cluster in
      (true, (write_little_endian_value st value at.sector at.offset 2).state)
  write_entry_of fs_fat32 p st cluster value =
      let at = place32 p cluster in
      (true, (write_little_endian_value st value at.sector at.offset 4).state)

  pub write_fat_entry : Partition → State → ℕ → ℕ → Bool × State
  unfolding write_entry_of
  write_fat_entry p st cluster value =
      if ltb cluster cluster_first || ltb p.fat.last_cluster cluster
      then (false, st)
      else write_entry_of p.filesys_type p st cluster value
