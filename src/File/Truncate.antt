-- ===== src/File/Truncate.antt =====
-- `_FAT_ftruncate_r` of source/fatfile.c.
pub mod Shrunk
pub mod NoRoom
use libfat.Base.{
  ℕ, zero, suc, ◌+◌, ◌-◌, ◌*◌, ◌/◌, ◌%◌, Bool, true, false, ◌&&◌, ◌||◌, not, Option, none, some,
  u32, leb, ltb, ◌==◌, if◌then◌else◌,
}
use libfat.Store.{SectorStore}
use libfat.Partition.State.{Partition, Volume}
use libfat.Fat.Entry.{cluster_free, is_valid_cluster}
use libfat.Fat.Chain.{◌>>=◌, link_free_cluster, clear_links, trim_chain}
use libfat.File.State.{FilePosition, FileStruct, Errno, ebadf, einval, enospc, efbig, file_max_size}
use libfat.File.Seek.{ℤ, pos, negsuc}
use libfat.File.Extend.{file_extend_r}

module _ (store : SectorStore) (p : Partition) where
  -- What a call returns: 0 is `true`, -1 is `false`.
  pub record TruncateCall : Type 0 where
    pub ok : Bool
    pub file : FileStruct
    pub volume : Volume store
    pub errno : Errno

  -- The last lines, where the size is stored.
  abbrev pub end_truncate : ℕ → Bool → FileStruct → Volume store → Errno → TruncateCall
  end_truncate size ok file v errno = record {
    ok = ok;
    file = record file { filesize = size; modified = true };
    volume = v;
    errno = errno;
  }

  -- Get a new cluster for the start of the file if required.
  unfoldable pub expand_start :
      Volume store → FileStruct → Option (Bool × FileStruct × Volume store)
  expand_start v file =
      if file.start_cluster == cluster_free
      then (link_free_cluster store p v cluster_free >>= λ r. some (
          if is_valid_cluster p r.0
          then (
            true,
            record file {
              start_cluster = r.0;
              rw_position = record { cluster = r.0; sector = 0; byte = 0 };
            },
            r.1,
          )
          else (false, file, r.1)))
      else some (true, file, v)

  -- Expanding the file: extended to the new position, with the old read/write pointer restored.
  unfoldable pub expand_to : Volume store → Errno → FileStruct → ℕ → Option TruncateCall
  expand_to v errno file size =
      file_extend_r store p v errno (record file { current_position = size }) >>= λ e. some (
        end_truncate size e.returned
          (record e.file {
            append_position = if e.file.append then e.file.rw_position else e.file.append_position;
            rw_position = file.rw_position;
            current_position = file.current_position;
          })
          e.volume e.errno)

  unfoldable pub expand : Volume store → Errno → FileStruct → ℕ → Option TruncateCall
  unfolding expand_start expand_to
  expand v errno file size = expand_start v file >>= λ (ok, file', v').
      let expanded = expand_to v' errno file' size in
      if ok
      then expanded
      else some (record { ok = false; file = file'; volume = v'; errno = enospc })

  -- Where the file ends, for appending: `last` is its last cluster.
  unfoldable pub end_position : ℕ → ℕ → FilePosition
  end_position size last = record {
    cluster = last;
    sector =
        if size % p.bytes_per_cluster == 0
        then p.sectors_per_cluster
        else size % p.bytes_per_cluster / p.bytes_per_sector;
    byte = size % p.bytes_per_sector;
  }

  -- Shrinking the file.
  unfoldable pub shrink : Volume store → Errno → FileStruct → ℕ → Option TruncateCall
  unfolding end_position
  shrink v errno file zero = clear_links store p v file.start_cluster >>= λ r. some (
      end_truncate 0 true
        (record file {
          start_cluster = cluster_free;
          append_position = record { cluster = cluster_free; sector = 0; byte = 0 };
        })
        r.1 errno)
  shrink v errno file (suc n) =
      trim_chain store p v file.start_cluster (suc (n / p.bytes_per_cluster)) >>= λ r. some (
        end_truncate (suc n) true
          (if file.append then record file { append_position = end_position (suc n) r.0 } else file)
          r.1 errno)

  unfoldable pub truncate_to : Volume store → Errno → FileStruct → ℕ → Option TruncateCall
  unfolding expand shrink
  truncate_to v errno file size =
      let expanded = expand v errno file size in
      let shrunk = shrink v errno file size in
      if ltb file.filesize size
      then expanded
      else if ltb size file.filesize
      then shrunk
      else some (end_truncate size true file v errno)

  -- `file` is not NULL.
  unfoldable pub ftruncate_r : Volume store → Errno → FileStruct → ℤ → Option TruncateCall
  unfolding truncate_to
  ftruncate_r v errno file (negsuc n) =
      some (record { ok = false; file = file; volume = v; errno = einval })
  ftruncate_r v errno file (pos n) =
      let fails : Errno → Option TruncateCall =
        λ e. some (record { ok = false; file = file; volume = v; errno = e }) in
      let truncated = truncate_to v errno file n in
      if ltb file_max_size n
      then fails efbig
      else if not file.in_use
      then fails ebadf
      else if not file.write
      then fails einval
      else truncated
