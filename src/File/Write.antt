-- ===== src/File/Write.antt =====
-- `_FAT_write_r` of source/fatfile.c. The targets have 32 bits, so `len` is a number below 2 ^ 32.
pub mod Stages
pub mod Kept
pub mod Onward
pub mod Parts
pub mod Groups
pub mod Rounds
pub mod Whole
pub mod Overwrite
use libfat.Base.{
  ℕ, zero, suc, ◌+◌, ◌-◌, ◌*◌, ◌/◌, ◌%◌, Bool, true, false, ◌&&◌, ◌||◌, not, Option, none, some,
  u32, leb, ltb, ◌==◌, if◌then◌else◌, Buffer,
}
use libfat.Store.{SectorStore}
use libfat.Partition.State.{Partition, Volume}
use libfat.Fat.Entry.{cluster_eof, cluster_free, cluster_to_sector, is_valid_cluster, next_cluster}
use libfat.Fat.Chain.{◌>>=◌, link_free_cluster, last_cluster}
use libfat.File.State.{
  FilePosition, FileStruct, Errno, ebadf, eio, einval, enospc, file_max_size, position_sector,
  after_bytes, to_sector_end, to_cluster_end, at_ptr,
}
use libfat.File.Extend.{file_extend_r}
use libfat.File.Write.Stages.{Writing, write_stages}

module _ (store : SectorStore) (p : Partition) where
  module _ (buffer : Buffer) where
    -- What a call returns: -1 is `none`.
    pub record WriteCall : Type 0 where
      pub returned : Option ℕ
      pub file : FileStruct
      pub volume : Volume store
      pub errno : Errno

    -- Only write up to the maximum file size.
    abbrev pub write_length : FileStruct → ℕ → ℕ
    write_length file len =
        let sum = u32 (len + file.filesize) in
        if ltb file_max_size sum || ltb sum file.filesize
        then file_max_size - file.filesize
        else len

    -- Get a new cluster for the start of the file if required.
    unfoldable pub start_chain :
        Volume store → FileStruct → Option (Bool × FileStruct × Volume store)
    start_chain v file =
        if file.start_cluster == cluster_free
        then (link_free_cluster store p v cluster_free >>= λ r.
            let at : FilePosition = record { cluster = r.0; sector = 0; byte = 0 } in
            some (
              if is_valid_cluster p r.0
              then (
                true,
                record file { start_cluster = r.0; append_position = at; rw_position = at },
                r.1,
              )
              else (false, file, r.1)))
        else some (true, file, v)

    -- Update file information.
    unfoldable pub end_write : FileStruct → ℕ → Writing store p → WriteCall
    end_write file len x =
        let n = len - x.remain in
        let current = u32 (file.current_position + n) in
        record {
          returned = some n;
          file =
              if file.append
              then record file {
                modified = true;
                append_position = x.position;
                filesize = u32 (file.filesize + n);
              }
              else record file {
                modified = true;
                rw_position = x.position;
                current_position = current;
                filesize = if ltb file.filesize current then current else file.filesize;
              };
          volume = x.volume;
          errno = x.errno;
        }

    -- The write itself, from `position` on.
    unfoldable pub write_from :
        Volume store → Errno → FileStruct → ℕ → FilePosition → Bool → Option WriteCall
    unfolding write_stages end_write
    write_from v errno file len position appending =
        write_stages store p buffer appending (record {
          volume = v;
          ptr = 0;
          remain = len;
          position = position;
          no_error = true;
          errno = errno;
        })
        >>= (λ x. some (end_write file len x))

    -- The file has a cluster: where to write, once the file is extended to there.
    unfoldable pub write_started : Volume store → Errno → FileStruct → ℕ → Option WriteCall
    unfolding write_from
    write_started v errno file len =
        let extended =
          if ltb file.filesize file.current_position
          then file_extend_r store p v errno file
          else some (record { returned = true; file = file; volume = v; errno = errno }) in
        if file.append
        then write_from v errno file len file.append_position true
        else (extended >>= λ e.
            let written =
              write_from e.volume e.errno e.file len e.file.rw_position
                (ltb e.file.filesize (u32 (len + e.file.current_position))) in
            if e.returned
            then written
            else some
                (record { returned = none; file = e.file; volume = e.volume; errno = e.errno }))

    -- `file` is not NULL.
    unfoldable pub write_r : Volume store → Errno → FileStruct → ℕ → Option WriteCall
    write_r v errno file len =
        let len' = write_length file len in
        let started = start_chain v file >>= λ (ok, file', v').
        let written = write_started v' errno file' len' in
        if ok
        then written
        else some (record { returned = none; file = file'; volume = v'; errno = enospc }) in
        if not file.in_use || not file.write
        then some (record { returned = none; file = file; volume = v; errno = ebadf })
        else if len' == 0
        then some (record { returned = some 0; file = file; volume = v; errno = errno })
        else started
