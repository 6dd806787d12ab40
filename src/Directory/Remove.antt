-- ===== src/Directory/Remove.antt =====
-- `_FAT_directory_removeEntry` of source/directory.c.
pub mod Slots
use libfat.Base.{
  ℕ, zero, suc, ◌+◌, Bool, true, false, Option, none, some, not, ◌&&◌, ◌==◌, if◌then◌else◌, Buffer,
}
use libfat.BitOps
use libfat.Store.{SectorStore}
use libfat.Partition.State.{Partition, Volume}
use libfat.Fat.Chain.{◌>>=◌}
use libfat.Directory.Entry.{DirEntry, DirEntryPosition, dir_entry_data_size, dir_entry_free}
use libfat.Directory.Position.{Step, increment_dir_entry_position, entry_sector, entry_offset}

abbrev pub same_position : DirEntryPosition → DirEntryPosition → Bool
same_position a b = a.cluster == b.cluster && (a.sector == b.sector && a.offset == b.offset)

module _ (store : SectorStore) (p : Partition) where
  -- Mark the entry at a position as free: the volume and the local buffer `entryData`.
  pub free_entry : Volume store → Buffer → DirEntryPosition → Volume store × Buffer
  free_entry v entry_data at =
      let r =
        store.read_partial_sector v.cache entry_data (entry_sector p at) (entry_offset at)
          dir_entry_data_size in
      let freed = BitOps.store r.buffer 0 dir_entry_free in
      let w =
        store.write_partial_sector r.state freed (entry_sector p at) (entry_offset at)
          dir_entry_data_size in
      (record v { cache = w.state }, freed)

  -- The loop; `none` is a loop that has not ended after `fuel` rounds. The step comes after the
  -- body also where the entry was the last to free.
  pub remove_from :
      ℕ → Volume store → Buffer → DirEntryPosition → DirEntryPosition → Option (Bool × Volume store)
  unfolding free_entry
  remove_from zero v entry_data start end = none
  remove_from (suc fuel) v entry_data start end =
      let (v', freed) = free_entry v entry_data start in
      increment_dir_entry_position store p v' start false >>= λ s.
      let rest = remove_from fuel s.volume freed s.position end in
      if not s.ok
      then some (false, s.volume)
      else if same_position start end
      then some (true, s.volume)
      else rest

  -- `entryData` has no contents at first.
  pub remove_entry : ℕ → Volume store → DirEntry → Option (Bool × Volume store)
  unfolding remove_from
  remove_entry fuel v entry = remove_from fuel v (λ i. 0) entry.data_start entry.data_end
