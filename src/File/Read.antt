-- ===== src/File/Read.antt =====
-- `_FAT_read_r` of source/fatfile.c: its stages, in order. `none` is a loop that has not ended when
-- its fuel is used up; the targets have 32 bits, so `len` and `remain` are numbers below 2 ^ 32. The
-- variant with LIMIT_SECTORS is not the one here.
pub mod Copied
pub mod Stages
pub mod Clusters
pub mod Chunks
pub mod Whole
pub mod Border
use libfat.Base.{
  ℕ, zero, suc, ◌+◌, ◌-◌, ◌*◌, ◌/◌, Bool, true, false, ◌&&◌, ◌||◌, not, Option, none, some, u32,
  leb, ltb, ◌==◌, if◌then◌else◌, Buffer,
}
use libfat.Store.{SectorStore}
use libfat.Partition.State.{Partition}
use libfat.Fat.Entry.{cluster_eof, cluster_free, cluster_to_sector, is_valid_cluster, next_cluster}
use libfat.Fat.Chain.{◌>>=◌}
use libfat.File.State.{
  FilePosition, FileStruct, Errno, ebadf, eio, eoverflow, position_sector, after_bytes,
  to_sector_end, to_cluster_end, at_ptr, with_ptr,
}

module _ (store : SectorStore) (p : Partition) where
  -- The local variables, with the cache and r->_errno; `ptr` is an offset in `buffer`.
  pub record Reading : Type 0 where
    pub cache : store.State
    pub buffer : Buffer
    pub ptr : ℕ
    pub remain : ℕ
    pub position : FilePosition
    pub no_error : Bool
    pub errno : Errno

  -- r->_errno = EIO; flagNoError = false;
  abbrev pub io_error : Reading → Reading
  io_error x = record x { no_error = false; errno = eio }

  -- Align to sector.
  unfoldable pub read_to_sector : Reading → Reading
  read_to_sector x =
      let n = to_sector_end p x.position x.remain in
      let r =
        store.read_partial_sector x.cache (at_ptr x.buffer x.ptr) (position_sector p x.position)
          x.position.byte n in
      if ltb n p.bytes_per_sector && x.no_error
      then record x {
        cache = r.state;
        buffer = with_ptr x.buffer x.ptr r.buffer;
        ptr = x.ptr + n;
        remain = x.remain - n;
        position = after_bytes p x.position n;
      }
      else x

  -- `n` whole sectors from `sector` on, where a call of the cache may fail.
  unfoldable pub read_whole : Reading → ℕ → ℕ → Reading
  read_whole x sector n =
      let r = store.read_sectors x.cache sector n (at_ptr x.buffer x.ptr) in
      if r.ok
      then record x {
        cache = r.state;
        buffer = with_ptr x.buffer x.ptr r.buffer;
        ptr = x.ptr + n * p.bytes_per_sector;
        remain = x.remain - n * p.bytes_per_sector;
      }
      else io_error (record x { cache = r.state; buffer = with_ptr x.buffer x.ptr r.buffer })

  -- ... and position.sector moves on where it succeeded.
  abbrev pub read_rest : Reading → ℕ → ℕ → Reading
  read_rest x sector n =
      let x' = read_whole x sector n in
      let moved = record x.position { sector = u32 (x.position.sector + n) } in
      if n == 0 || not x.no_error
      then x
      else if x'.no_error
      then record x' { position = moved }
      else x'

  -- Align to cluster.
  unfoldable pub read_to_cluster : Reading → Reading
  unfolding read_whole
  read_to_cluster x =
      read_rest x (position_sector p x.position) (to_cluster_end p x.position x.remain)

  -- On to cluster `next` behind `chunk_end`.
  unfoldable pub move_on : Reading → ℕ → ℕ → Reading
  move_on x chunk_end next =
      if x.remain == 0 && next == cluster_eof
      then record x {
        position = record x.position { cluster = chunk_end; sector = p.sectors_per_cluster };
      }
      else if is_valid_cluster p next
      then record x { position = record x.position { cluster = next; sector = 0 } }
      else io_error x

  -- Move onto next cluster.
  unfoldable pub read_next_cluster : Reading → Reading
  unfolding move_on
  read_next_cluster x =
      let (next, st) = next_cluster store p x.cache x.position.cluster in
      if leb p.sectors_per_cluster x.position.sector && x.no_error
      then move_on (record x { cache = st }) x.position.cluster next
      else x

  -- The clusters of a chunk: its last one, the one that follows, and its size.
  pub record Chunk : Type 0 where
    pub cache : store.State
    pub chunk_end : ℕ
    pub next_chunk_start : ℕ
    pub chunk_size : ℕ

  pub chunk_from : ℕ → store.State → ℕ → ℕ → ℕ → Option Chunk
  chunk_from zero st start size remain = none
  chunk_from (suc fuel) st start size remain =
      let (next, st') = next_cluster store p st start in
      let size' = size + p.bytes_per_cluster in
      let rest = chunk_from fuel st' next size' remain in
      if next == u32 (start + 1) && leb (u32 (size' + p.bytes_per_cluster)) remain
      then rest
      else some
          (record { cache = st'; chunk_end = start; next_chunk_start = next; chunk_size = size' })

  -- A round of the loop over whole clusters.
  unfoldable pub read_chunk : Reading → Chunk → Reading
  unfolding read_whole move_on
  read_chunk x c =
      let x' =
        read_whole (record x { cache = c.cache }) (cluster_to_sector p x.position.cluster)
          (c.chunk_size / p.bytes_per_sector) in
      if x'.no_error then move_on x' c.chunk_end c.next_chunk_start else x'

  -- Read in whole clusters, contiguous blocks at a time.
  pub read_clusters : ℕ → Reading → Option Reading
  unfolding read_chunk
  read_clusters zero x = if leb p.bytes_per_cluster x.remain && x.no_error then none else some x
  read_clusters (suc fuel) x =
      let next = chunk_from (suc fuel) x.cache x.position.cluster 0 x.remain >>= λ c.
      read_clusters fuel (read_chunk x c) in
      if leb p.bytes_per_cluster x.remain && x.no_error then next else some x

  -- Read remaining sectors.
  unfoldable pub read_last_sectors : Reading → Reading
  unfolding read_whole
  read_last_sectors x =
      read_rest x (cluster_to_sector p x.position.cluster) (x.remain / p.bytes_per_sector)

  -- Last remaining sector.
  unfoldable pub read_last_bytes : Reading → Reading
  read_last_bytes x =
      let r =
        store.read_partial_sector x.cache (at_ptr x.buffer x.ptr) (position_sector p x.position) 0
          x.remain in
      if ltb 0 x.remain && x.no_error
      then record x {
        cache = r.state;
        buffer = with_ptr x.buffer x.ptr r.buffer;
        remain = 0;
        position = record x.position { byte = x.position.byte + x.remain };
      }
      else x

  -- From "Align to sector" to the end of the last sector.
  unfoldable pub read_stages : Reading → Option Reading
  unfolding read_to_sector read_to_cluster read_next_cluster read_clusters read_last_sectors
      read_last_bytes
  read_stages x =
      let x' = read_next_cluster (read_to_cluster (read_to_sector x)) in
      read_clusters (x'.remain + 1) x' >>= λ x''. some (read_last_bytes (read_last_sectors x''))

  -- What a call returns: -1 is `none`.
  pub record Call : Type 0 where
    pub returned : Option ℕ
    pub buffer : Buffer
    pub file : FileStruct
    pub cache : store.State
    pub errno : Errno

  -- Update file information.
  unfoldable pub end_read : FileStruct → ℕ → Reading → Call
  end_read file len x = record {
    returned = some (len - x.remain);
    buffer = x.buffer;
    file = record file {
      rw_position = x.position;
      current_position = u32 (file.current_position + (len - x.remain));
    };
    cache = x.cache;
    errno = x.errno;
  }

  -- `file` is not NULL.
  unfoldable pub read_r : store.State → Errno → FileStruct → Buffer → ℕ → Option Call
  unfolding read_stages end_read
  read_r st errno file buffer len =
      let past = ltb file.filesize (u32 (len + file.current_position)) in
      let len' = if past then file.filesize - file.current_position else len in
      let start : Reading = record {
        cache = st;
        buffer = buffer;
        ptr = 0;
        remain = len';
        position = file.rw_position;
        no_error = true;
        errno = if past then eoverflow else errno;
      } in
      let returns : Option ℕ → Errno → Option Call = λ n e.
        some (record { returned = n; buffer = buffer; file = file; cache = st; errno = e }) in
      if len == 0
      then returns (some 0) errno
      else if not file.in_use || not file.read
      then returns none ebadf
      else if leb file.filesize file.current_position || file.start_cluster == cluster_free
      then returns (some 0) eoverflow
      else (read_stages start >>= λ x. some (end_read file len' x))
