-- ===== src/File/Sync/Synced.antt =====
-- `_FAT_syncToDisc` on a medium without faults.
use libfat.Base.{
  ℕ, ◌+◌, ◌-◌, ◌^◌, ◌≤◌, ◌<◌, ◌≡◌, ◌≢◌, ◌⊎◌, true, false, arith, refl, ◌∙◌, u16, ap, bit_or,
  if◌then◌else◌, Buffer, none, not, ◌&&◌,
}
use libfat.BitOps.{u8array_to_u16, u8array_to_u32}
use libfat.Cache.Invariant.{Sectors}
use libfat.Cache.Sector.Partial.{put_bytes}
use libfat.Store.{SectorStore, IsStore}
use libfat.Partition.State.{Partition, Volume}
use libfat.Partition.Boot.{is_fat32}
use libfat.Directory.Entry.Root.{u8array_to_u16-same}
use libfat.Directory.Entry.{entry_get_cluster}
use libfat.Directory.Position.{entry_sector, entry_offset}
use libfat.FileTime.{get_time_from_rtc, get_date_from_rtc}
use libfat.File.State.{FileStruct}
use libfat.File.Sync.{attrib_arch, Clock, synced_entry, SyncCall, write_dir_entry, sync_to_disc}
use libfat.File.Sync.Entry.{
  u8array_to_u32-same, entry_get_cluster-same, synced_entry_lem, synced_entry_byte,
  synced_attributes,
}

module _ (store : SectorStore) (size : ℕ) (p : Partition)
    (laws : IsStore store size p.bytes_per_sector) (sectors : Sectors) where
  -- The 32 bytes of the file's directory entry in an array of sectors.
  abbrev pub dir_entry_bytes : Sectors → FileStruct → Buffer
  dir_entry_bytes s file k =
      s (entry_sector p file.dir_entry_end) (entry_offset file.dir_entry_end + k)

  -- The file's directory entry says what the open file says, and nothing else has changed.
  pub record Synced (now : Clock) (file : FileStruct) (c : SyncCall store p) : Type 0 where
    pub ok : c.failed ≡ none
    pub clean : c.file ≡ record file { modified = false }
    pub after : Sectors
    pub holds : laws.Holds c.volume.cache after
    pub stored : laws.OnMedium c.volume.cache after
    pub filesize : u8array_to_u32 (dir_entry_bytes after file) 0x1C ≡ file.filesize
    pub cluster : entry_get_cluster p (dir_entry_bytes after file) ≡ file.start_cluster
    pub time : u8array_to_u16 (dir_entry_bytes after file) 0x16 ≡ u16 (get_time_from_rtc now.time)
    pub date : u8array_to_u16 (dir_entry_bytes after file) 0x18 ≡ u16 (get_date_from_rtc now.date)
    pub attributes :
        dir_entry_bytes after file 0x0B ≡ bit_or (dir_entry_bytes sectors file 0x0B) attrib_arch
    pub elsewhere :
        (s o : ℕ)
        → (s ≢ entry_sector p file.dir_entry_end)
          ⊎ (o < entry_offset file.dir_entry_end)
          ⊎ (entry_offset file.dir_entry_end + 32 ≤ o)
        → after s o ≡ sectors s o

  same_bytes :
      (e : Buffer) (sector offset k : ℕ)
      → k < 32
      → put_bytes sectors sector offset 32 e sector (offset + k) ≡ e k
  same_bytes e sector offset k h =
      let z : offset + k - offset ≡ k = omega arith in ground (arith, z)

  -- On a medium without faults `_FAT_syncToDisc` of an open file that was modified succeeds: the
  -- medium then has the file's directory entry with its size, its first cluster, the time and date of
  -- the clock and the attributes it had with that of an archive, the file counts as not modified, and
  -- no byte outside the entry changes.
  pub sync_to_disc-Synced :
      (now : Clock) (v : Volume store) (file : FileStruct)
      → laws.Holds v.cache sectors
      → file.in_use ≡ true
      → file.write ≡ true
      → file.modified ≡ true
      → file.filesize < 2 ^ 32
      → file.start_cluster < (if is_fat32 p.filesys_type then 2 ^ 32 else 65536)
      → entry_sector p file.dir_entry_end < size
      → entry_offset file.dir_entry_end + 32 ≤ p.bytes_per_sector
      → Synced now file (sync_to_disc store p now v file)
  unfolding sync_to_disc write_dir_entry
  sync_to_disc-Synced now v file h used writes dirty small cluster inside fits =
      let sector = entry_sector p file.dir_entry_end in
      let offset = entry_offset file.dir_entry_end in
      let r = store.read_partial_sector v.cache (λ i. 0) sector offset 32 in
      let (_, read, h') = laws.reads_part v.cache sectors (λ i. 0) sector offset 32 h inside fits in
      let e = synced_entry now file r.buffer in
      let byte : (k : ℕ) → k < 32 → e k < 256 = λ k hk.
        synced_entry_byte now file r.buffer k
          (rw (read k hk) (laws.bytes v.cache sectors h sector (offset + k))) in
      let (_, h'') = laws.writes_part r.state sectors e sector offset 32 h' byte inside fits in
      let w = store.write_partial_sector r.state e sector offset 32 in
      let after = put_bytes sectors sector offset 32 e in
      let (flushed, held, stored) = laws.flushes w.state after h'' in
      let (size_, cluster_, time, date) = synced_entry_lem now file p r.buffer small cluster in
      let same = same_bytes e sector offset in
      let t : not file.in_use ≡ false = ground (arith, used) in
      let t' : (file.write && file.modified) ≡ true = ground (arith, writes, dirty) in
      rw (t, t', flushed)
        (record {
          ok = refl;
          clean = refl;
          after = after;
          holds = held;
          stored = stored;
          filesize =
              u8array_to_u32-same (dir_entry_bytes after file) e 0x1C (same 0x1C (omega arith))
                (same 0x1D (omega arith)) (same 0x1E (omega arith)) (same 0x1F (omega arith))
              ∙ size_;
          cluster = entry_get_cluster-same p (dir_entry_bytes after file) e same ∙ cluster_;
          time =
              u8array_to_u16-same (dir_entry_bytes after file) e 0x16 (same 0x16 (omega arith))
                (same 0x17 (omega arith))
              ∙ time;
          date =
              u8array_to_u16-same (dir_entry_bytes after file) e 0x18 (same 0x18 (omega arith))
                (same 0x19 (omega arith))
              ∙ date;
          attributes =
              same 0x0B (omega arith)
              ∙ synced_attributes now file r.buffer (
                  rw (read 0x0B (omega arith))
                    (laws.bytes v.cache sectors h sector (offset + 0x0B)))
              ∙ ap (λ (a : ℕ). bit_or a attrib_arch) (read 0x0B (omega arith));
          elsewhere = λ s o out. ground arith;
        })
