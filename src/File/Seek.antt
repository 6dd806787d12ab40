-- ===== src/File/Seek.antt =====
-- `_FAT_seek_r` of source/fatfile.c. An off_t is an integer of its own, of 64 bits that do not
-- overflow; a cluster count is a natural number, since it is only ever reduced by what it is not less
-- than.
pub mod Positions
pub mod ThenRead
use libfat.Base.{
  ℕ, zero, suc, ◌+◌, ◌-◌, ◌*◌, ◌/◌, ◌%◌, Bool, true, false, ◌&&◌, ◌||◌, not, Option, none, some,
  leb, ltb, ◌==◌, if◌then◌else◌,
}
use libfat.Store.{SectorStore}
use libfat.Partition.State.{Partition}
use libfat.Fat.Entry.{cluster_eof, cluster_free, next_cluster}
use libfat.File.State.{FilePosition, FileStruct, Errno, ebadf, einval, eoverflow, file_max_size}

-- An off_t: `negsuc n` is -(n + 1).
pub data ℤ : Type 0 where
  pos : ℕ → ℤ
  negsuc : ℕ → ℤ

-- (off_t) a + b, where `a` is unsigned.
unfoldable pub plus_offset : ℕ → ℤ → ℤ
plus_offset a (pos b) = pos (a + b)
plus_offset a (negsuc b) = if ltb b a then pos (a - b - 1) else negsuc (b - a)

abbrev pub is_positive : ℤ → Bool
is_positive (pos n) = ltb 0 n
is_positive (negsuc n) = false

abbrev pub is_negative : ℤ → Bool
is_negative (pos n) = false
is_negative (negsuc n) = true

-- SEEK_SET, SEEK_CUR, SEEK_END, and what is none of them.
pub data Whence : Type 0 where
  seek_set seek_cur seek_end seek_other : Whence

-- newPosition, or `none` by default.
unfoldable pub new_position : FileStruct → ℤ → Whence → Option ℤ
unfolding plus_offset
new_position file offset seek_set = some offset
new_position file offset seek_cur = some (plus_offset file.current_position offset)
new_position file offset seek_end = some (plus_offset file.filesize offset)
new_position file offset seek_other = none

-- The tests on newPosition: an error, or the new position.
unfoldable pub checked_position : ℤ → Option ℤ → Option Errno × ℕ
checked_position offset none = (some einval, 0)
checked_position offset (some (negsuc n)) =
    (some (if is_positive offset then eoverflow else einval), 0)
checked_position offset (some (pos n)) = if ltb file_max_size n then (some einval, 0) else (none, n)

module _ (store : SectorStore) (p : Partition) where
  -- Where the walk along the chain ends: the count left, the cluster and the cache.
  pub record Walked : Type 0 where
    pub left : ℕ
    pub cluster : ℕ
    pub cache : store.State

  -- `next` is nextCluster.
  pub walk : ℕ → store.State → ℕ → ℕ → Walked
  walk zero st cluster next = record { left = 0; cluster = cluster; cache = st }
  walk (suc left) st cluster next =
      let (next', st') = next_cluster store p st next in
      let rest = walk left st' next next' in
      if not (next == cluster_free) && not (next == cluster_eof)
      then rest
      else record { left = suc left; cluster = cluster; cache = st }

  -- Where the walk starts, and how many clusters it has to go.
  unfoldable pub walk_start : FileStruct → ℕ → ℕ × ℕ
  walk_start file position =
      let count = position / p.bytes_per_cluster in
      let at_end = if file.rw_position.sector == p.sectors_per_cluster then 1 else 0 in
      if leb file.current_position position
      then (count + at_end - file.current_position / p.bytes_per_cluster, file.rw_position.cluster)
      else (count, file.start_cluster)

  -- What a call returns: -1 is `none`.
  pub record SeekCall : Type 0 where
    pub returned : Option ℕ
    pub file : FileStruct
    pub cache : store.State
    pub errno : Errno

  -- The position in its cluster, once the walk has ended.
  unfoldable pub seek_end_walk : Errno → FileStruct → ℕ → Walked → SeekCall
  seek_end_walk errno file position w =
      let sector = position % p.bytes_per_cluster / p.bytes_per_sector in
      let rw = record file.rw_position { sector = sector; byte = position % p.bytes_per_sector } in
      let at_end : FilePosition = record {
        cluster = w.cluster;
        sector = p.sectors_per_cluster;
        byte = 0;
      } in
      if w.left == 0
      then record {
        returned = some position;
        file = record file {
          rw_position = record rw { cluster = w.cluster };
          current_position = position;
        };
        cache = w.cache;
        errno = errno;
      }
      else if w.left == 1 && file.filesize == position && sector == 0
      then record {
        returned = some position;
        file = record file { rw_position = at_end; current_position = position };
        cache = w.cache;
        errno = errno;
      }
      else record {
        returned = none;
        file = record file { rw_position = rw };
        cache = w.cache;
        errno = einval;
      }

  -- Only change the read/write position if it is within the bounds of the current filesize.
  unfoldable pub seek_to : store.State → Errno → FileStruct → ℕ → SeekCall
  unfolding walk walk_start seek_end_walk
  seek_to st errno file position =
      let (count, cluster) = walk_start file position in
      let (next, st') = next_cluster store p st cluster in
      if leb position file.filesize && not (file.start_cluster == cluster_free)
      then seek_end_walk errno file position (walk count st' cluster next)
      else record {
        returned = some position;
        file = record file { current_position = position };
        cache = st;
        errno = errno;
      }

  unfoldable pub seek_checked : store.State → Errno → FileStruct → Option Errno × ℕ → SeekCall
  unfolding seek_to
  seek_checked st errno file (some e, position) = record {
    returned = none;
    file = file;
    cache = st;
    errno = e;
  }
  seek_checked st errno file (none, position) = seek_to st errno file position

  -- `file` is not NULL.
  unfoldable pub seek_r : store.State → Errno → FileStruct → ℤ → Whence → SeekCall
  unfolding seek_checked checked_position new_position
  seek_r st errno file offset whence =
      if not file.in_use
      then record { returned = none; file = file; cache = st; errno = ebadf }
      else seek_checked st errno file (checked_position offset (new_position file offset whence))
