-- ===== src/File/Sync/Stat.antt =====
-- What `_FAT_directory_entryStat` says of a file that `_FAT_syncToDisc` has written.
use libfat.Base.{
  ap, ℕ, ◌+◌, ◌*◌, ◌/◌, ◌^◌, ◌≤◌, ◌<◌, ◌≡◌, true, refl, ◌∙◌, if◌then◌else◌, Buffer, some, bit_or,
  bit_and-bit_or,
}
use libfat.Cache.Invariant.{Sectors}
use libfat.Store.{SectorStore, IsStore}
use libfat.Partition.State.{Partition, Volume}
use libfat.Partition.Boot.{is_fat32}
use libfat.Directory.Position.{entry_sector, entry_offset}
use libfat.Directory.Stat.{is_directory, is_writable, entry_stat}
use libfat.FileTime.{get_time_from_rtc, get_date_from_rtc, Tm}
use libfat.FileTime.RoundTrip.{
  to_tm-get_time_from_rtc, u16-get_time_from_rtc, u16-get_date_from_rtc,
}
use libfat.File.State.{FileStruct}
use libfat.File.Sync.{Clock, sync_to_disc}
use libfat.File.Sync.Synced.{dir_entry_bytes, sync_to_disc-Synced}

mode_kept :
    (p : Partition) (io_type : ℕ) (e e' : Buffer)
    → e 0x0B < 256
    → e' 0x0B ≡ bit_or (e 0x0B) 0x20
    → (entry_stat p io_type e').st_mode ≡ (entry_stat p io_type e).st_mode
unfolding entry_stat is_directory is_writable
mode_kept p io_type e e' h same =
    let (dir, ro, _) = bit_and-bit_or (e 0x0B) h in rw (same, dir, ro) refl

module _ (store : SectorStore) (size : ℕ) (p : Partition)
    (laws : IsStore store size p.bytes_per_sector) (sectors : Sectors) where
  -- On a medium without faults, after `_FAT_syncToDisc` of an open file that was modified, the
  -- medium has a directory entry of which `_FAT_directory_entryStat` says the size and the first
  -- cluster of the file, the mode that it said before, and the time of the clock, to an even second,
  -- where that is between the years 1980 and 2107 and the clock gave the same for time and date.
  pub entry_stat-sync_to_disc :
      (now : Clock) (t : Tm) (io_type : ℕ) (v : Volume store) (file : FileStruct)
      → laws.Holds v.cache sectors
      → file.in_use ≡ true
      → file.write ≡ true
      → file.modified ≡ true
      → file.filesize < 2 ^ 32
      → file.start_cluster < (if is_fat32 p.filesys_type then 2 ^ 32 else 65536)
      → entry_sector p file.dir_entry_end < size
      → entry_offset file.dir_entry_end + 32 ≤ p.bytes_per_sector
      → now.time ≡ some t
      → now.date ≡ some t
      → t.tm_hour ≤ 23
      → t.tm_min ≤ 59
      → t.tm_sec ≤ 59
      → t.tm_mon ≤ 11
      → 1 ≤ t.tm_mday
      → t.tm_mday ≤ 31
      → 80 ≤ t.tm_year
      → t.tm_year ≤ 207
      → let before =
          entry_stat p io_type (dir_entry_bytes store size p laws sectors sectors file) in
        (after : Sectors) × laws.Holds (sync_to_disc store p now v file).volume.cache after
        × laws.OnMedium (sync_to_disc store p now v file).volume.cache after
        × (let st = entry_stat p io_type (dir_entry_bytes store size p laws sectors after file) in
            (st.st_size ≡ file.filesize)
            × (st.st_ino ≡ file.start_cluster)
            × (st.st_mode ≡ before.st_mode)
            × (st.st_mtime ≡ record t { tm_sec = t.tm_sec / 2 * 2 }))
  unfolding entry_stat
  entry_stat-sync_to_disc now t io_type v file h used writes dirty small cluster inside fits e e'
        hour min sec mon day day' year year' =
      let s =
        sync_to_disc-Synced store size p laws sectors now v file h used writes dirty small cluster
          inside fits in
      let (hour', min', sec', mday', mon', year'') =
        to_tm-get_time_from_rtc t hour min sec mon day day' year year' in
      let time = s.time ∙ u16-get_time_from_rtc now.time ∙ ap get_time_from_rtc e in
      let date = s.date ∙ u16-get_date_from_rtc now.date ∙ ap get_date_from_rtc e' in
      let old =
        laws.bytes v.cache sectors h (entry_sector p file.dir_entry_end)
          (entry_offset file.dir_entry_end + 0x0B) in
      (
        s.after,
        s.holds,
        s.stored,
        (
          s.filesize,
          s.cluster,
          mode_kept p io_type (dir_entry_bytes store size p laws sectors sectors file)
              (dir_entry_bytes store size p laws sectors s.after file) old s.attributes,
          rw (time, date, hour', min', sec', mday', mon', year'') refl,
        ),
      )
