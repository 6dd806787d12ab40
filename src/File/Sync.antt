-- ===== src/File/Sync.antt =====
-- `_FAT_syncToDisc`, `_FAT_fsync_r` and `_FAT_close_r` of source/fatfile.c. What the clock gives is a
-- parameter; an array that C leaves without contents is zero.
pub mod Entry
pub mod Synced
pub mod Stat
use libfat.Base.{
  ℕ, zero, suc, ◌+◌, ◌*◌, ◌/◌, ◌^◌, Bool, true, false, ◌&&◌, ◌||◌, not, Option, none, some, bit_or,
  ◌==◌, if◌then◌else◌, Buffer,
}
use libfat.BitOps
use libfat.BitOps.{u16_to_u8array, u32_to_u8array}
use libfat.Store.{SectorStore}
use libfat.Partition.State.{Partition, Volume}
use libfat.Directory.Entry.{dir_entry_data_size}
use libfat.Directory.Position.{entry_sector, entry_offset}
use libfat.FileTime.{Tm, get_time_from_rtc, get_date_from_rtc}
use libfat.File.State.{FileStruct, Errno, ebadf, eio}
use libfat.File.OpenFiles.{OpenFiles, remove_open_file}

-- What the clock gives when it is read for the modification time, the modification date and the
-- access date; `none` is a clock that cannot be read.
pub record Clock : Type 0 where
  pub time : Option Tm
  pub date : Option Tm
  pub access : Option Tm

abbrev pub attrib_arch : ℕ
attrib_arch = 0x20

-- The new data of the directory entry, from the old: size, start cluster, times, archive attribute.
unfoldable pub synced_entry : Clock → FileStruct → Buffer → Buffer
synced_entry now file old =
    let size = u32_to_u8array old 0x1C file.filesize in
    let low = u16_to_u8array size 0x1A file.start_cluster in
    let high = u16_to_u8array low 0x14 (file.start_cluster / 2 ^ 16) in
    let time = u16_to_u8array high 0x16 (get_time_from_rtc now.time) in
    let date = u16_to_u8array time 0x18 (get_date_from_rtc now.date) in
    let access = u16_to_u8array date 0x12 (get_date_from_rtc now.access) in
    BitOps.store access 0x0B (bit_or (access 0x0B) attrib_arch)

module _ (store : SectorStore) (p : Partition) where
  -- What a call returns: `none` is 0, an error is its number.
  pub record SyncCall : Type 0 where
    pub failed : Option Errno
    pub file : FileStruct
    pub volume : Volume store

  unfoldable pub write_dir_entry : Clock → Volume store → FileStruct → Volume store
  unfolding synced_entry
  write_dir_entry now v file =
      let sector = entry_sector p file.dir_entry_end in
      let offset = entry_offset file.dir_entry_end in
      let r = store.read_partial_sector v.cache (λ i. 0) sector offset dir_entry_data_size in
      record v {
        cache =
            (store.write_partial_sector r.state (synced_entry now file r.buffer) sector offset
              dir_entry_data_size).state;
      }

  -- `file` is not NULL.
  unfoldable pub sync_to_disc : Clock → Volume store → FileStruct → SyncCall
  unfolding write_dir_entry
  sync_to_disc now v file =
      let written = write_dir_entry now v file in
      let (flushed, st) = store.flush written.cache in
      let v' = record v { cache = st } in
      let clean = record file { modified = false } in
      if not file.in_use
      then record { failed = some ebadf; file = file; volume = v }
      else if file.write && file.modified
      then (if flushed
          then record { failed = none; file = clean; volume = v' }
          else record { failed = some eio; file = file; volume = v' })
      else record { failed = none; file = clean; volume = v }

  -- What a call returns: 0 is `true`, -1 is `false`, and r->_errno.
  pub record CloseCall : Type 0 where
    pub ok : Bool
    pub file : FileStruct
    pub volume : Volume store
    pub open_files : OpenFiles
    pub errno : Errno

  abbrev pub errno_of : Option Errno → Errno → Errno
  errno_of none errno = errno
  errno_of (some e) errno = e

  abbrev pub is_ok : Option Errno → Bool
  is_ok none = true
  is_ok (some e) = false

  unfoldable pub fsync_r :
      Clock
      → Volume store
      → Errno
      → FileStruct
      → record { ok : Bool; file : FileStruct; volume : Volume store; errno : Errno }
  unfolding sync_to_disc
  fsync_r now v errno file =
      let r = sync_to_disc now v file in
      if not file.in_use
      then record { ok = false; file = file; volume = v; errno = ebadf }
      else record {
        ok = is_ok r.failed;
        file = r.file;
        volume = r.volume;
        errno = errno_of r.failed errno;
      }

  -- `address` is the number of the FILE_STRUCT.
  unfoldable pub close_r : Clock → Volume store → OpenFiles → Errno → ℕ → FileStruct → CloseCall
  unfolding sync_to_disc
  close_r now v o errno address file =
      let r =
        if file.write
        then sync_to_disc now v file
        else record { failed = none; file = file; volume = v } in
      if not file.in_use
      then record { ok = false; file = file; volume = v; open_files = o; errno = ebadf }
      else record {
        ok = is_ok r.failed;
        file = record (r.file) { in_use = false };
        volume = r.volume;
        open_files = remove_open_file o address;
        errno = errno_of r.failed errno;
      }
