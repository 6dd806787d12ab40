-- ===== src/File/Extend.antt =====
-- `_FAT_file_extend_r` of source/fatfile.c: its stages, in order. `none` is a loop that has not ended
-- when its fuel is used up.
use libfat.Base.{
  ℕ, zero, suc, ◌+◌, ◌-◌, ◌/◌, ◌%◌, Bool, true, false, ◌&&◌, Option, none, some, u32, leb, ltb,
  ◌==◌, if◌then◌else◌, Buffer,
}
use libfat.Store.{SectorStore}
use libfat.Partition.State.{Partition, Volume}
use libfat.Fat.Entry.{is_valid_cluster}
use libfat.Fat.Chain.{◌>>=◌, link_free_cluster, last_cluster}
use libfat.File.State.{FilePosition, FileStruct, Errno, enospc, position_sector}
use libfat.File.Next.{check_position_for_next_cluster}

module _ (store : SectorStore) (p : Partition) where
  -- memset (zeroBuffer, 0, partition->bytesPerSector)
  abbrev pub zero_buffer : Buffer
  zero_buffer i = 0

  -- The state of `_FAT_file_extend_r`.
  pub record Extending : Type 0 where
    pub volume : Volume store
    pub remain : ℕ
    pub position : FilePosition
    pub no_error : Bool
    pub errno : Errno

  abbrev pub write_zeros : Volume store → FilePosition → ℕ → Volume store
  write_zeros v q n = record v {
    cache = (store.write_partial_sector v.cache zero_buffer (position_sector p q) q.byte n).state;
  }

  -- A new cluster behind that of the position; without one the function returns false.
  unfoldable pub new_cluster : Extending → Option Extending
  new_cluster x = link_free_cluster store p x.volume x.position.cluster >>= λ r. some (
      if is_valid_cluster p r.0
      then record x { volume = r.1; position = record x.position { cluster = r.0; sector = 0 } }
      else record x { volume = r.1; no_error = false; errno = enospc })

  -- The start of the file's end: the position of its size, on a new cluster at a border.
  unfoldable pub extend_start : Volume store → Errno → FileStruct → Option Extending
  unfolding new_cluster
  extend_start v errno file = last_cluster store p v.cache file.start_cluster >>= λ r.
      let q : FilePosition = record {
        cluster = r.0;
        sector = file.filesize % p.bytes_per_cluster / p.bytes_per_sector;
        byte = file.filesize % p.bytes_per_sector;
      } in
      let x : Extending = record {
        volume = record v { cache = r.1 };
        remain = file.current_position - file.filesize;
        position = q;
        no_error = true;
        errno = errno;
      } in
      if ltb 0 x.remain && ltb 0 file.filesize && q.sector == 0 && q.byte == 0
      then new_cluster x
      else some x

  -- Zero the rest of the sector that the position is in.
  unfoldable pub extend_to_sector : Extending → Extending
  extend_to_sector x =
      let n = p.bytes_per_sector - x.position.byte in
      if ltb 0 x.position.byte
      then record x {
        volume = write_zeros x.volume x.position n;
        remain = x.remain - n;
        position = record x.position { byte = 0; sector = u32 (x.position.sector + 1) };
      }
      else x

  -- One sector of zeros.
  unfoldable pub extend_sector : Extending → Extending
  extend_sector x = record x {
    volume = record (x.volume) {
      cache =
          (store.write_sectors x.volume.cache (position_sector p x.position) 1 zero_buffer).state;
    };
    remain = x.remain - p.bytes_per_sector;
    position = record x.position { sector = u32 (x.position.sector + 1) };
  }

  pub extend_sectors : ℕ → Extending → Option Extending
  unfolding extend_sector new_cluster
  extend_sectors zero x = if leb p.bytes_per_sector x.remain && x.no_error then none else some x
  extend_sectors (suc fuel) x =
      let here =
        if leb p.sectors_per_cluster x.position.sector
        then new_cluster (record x { position = record x.position { sector = 0 } })
        else some x in
      let next = here >>= λ y.
      let rest = extend_sectors fuel (extend_sector y) in if y.no_error then rest else some y in
      if leb p.bytes_per_sector x.remain && x.no_error then next else some x

  -- The last zeros, in the cluster that they are due in.
  unfoldable pub extend_rest : Extending → Option Extending
  unfolding check_position_for_next_cluster
  extend_rest x =
      check_position_for_next_cluster store p x.volume x.errno x.position x.remain true >>= λ c.
      let y : Extending = record {
        volume = c.volume;
        remain = x.remain;
        position = c.position;
        no_error = c.returned;
        errno = c.errno;
      } in
      some (
        if c.returned && ltb 0 x.remain
        then record y {
          volume = write_zeros y.volume (record (y.position) { byte = 0 }) x.remain;
          position = record (y.position) { byte = x.remain };
        }
        else y)

  -- The sectors between the old end and the new one.
  unfoldable pub extend_zeros : Extending → Option Extending
  unfolding extend_to_sector extend_sectors extend_rest
  extend_zeros x =
      if ltb (u32 (x.remain + x.position.byte)) p.bytes_per_sector
      then some (record x {
        volume = write_zeros x.volume x.position x.remain;
        position = record x.position { byte = x.position.byte + x.remain };
      })
      else (extend_sectors (x.remain + 1) (extend_to_sector x) >>= λ y.
          if y.no_error then extend_rest y else some y)

  -- The result, the file, the volume and r->_errno.
  pub record Extended : Type 0 where
    pub returned : Bool
    pub file : FileStruct
    pub volume : Volume store
    pub errno : Errno

  unfoldable pub end_extend : FileStruct → Extending → Extended
  end_extend file x = record {
    returned = x.no_error;
    file =
        if x.no_error
        then record file { rw_position = x.position; filesize = file.current_position }
        else file;
    volume = x.volume;
    errno = x.errno;
  }

  unfoldable pub file_extend_r : Volume store → Errno → FileStruct → Option Extended
  unfolding extend_start extend_zeros end_extend
  file_extend_r v errno file =
      extend_start v errno file
      >>= (λ x. if x.no_error then extend_zeros x else some x)
      >>= (λ x. some (end_extend file x))
