-- ===== src/File/State.antt =====
-- FILE_POSITION and FILE_STRUCT of source/fatfile.h, and what the functions of source/fatfile.c
-- share. A file's partition is the parameter of each function, and the links of the list of open
-- files are not in the record.
use libfat.Base.{ℕ, ◌+◌, ◌-◌, ◌*◌, ◌/◌, Bool, u32, sub32, leb, ltb, if◌then◌else◌, Buffer}
use libfat.Partition.State.{Partition}
use libfat.Fat.Entry.{cluster_to_sector}
use libfat.Directory.Entry.{DirEntryPosition}

-- FILE_MAX_SIZE
abbrev pub file_max_size : ℕ
file_max_size = 0xFFFFFFFF

pub record FilePosition : Type 0 where
  pub cluster : ℕ
  pub sector : ℕ
  pub byte : ℕ

pub record FileStruct : Type 0 where
  pub filesize : ℕ
  pub start_cluster : ℕ
  pub current_position : ℕ
  pub rw_position : FilePosition
  pub append_position : FilePosition
  pub dir_entry_start : DirEntryPosition
  pub dir_entry_end : DirEntryPosition
  pub read : Bool
  pub write : Bool
  pub append : Bool
  pub in_use : Bool
  pub modified : Bool

-- The values of r->_errno that source/fatfile.c stores; `unset` is what it was before the call.
pub data Errno : Type 0 where
  unset ebadf eoverflow eio einval enospc efbig : Errno

-- The sector that a position is in.
abbrev pub position_sector : Partition → FilePosition → ℕ
position_sector p q = u32 (cluster_to_sector p q.cluster + q.sector)

-- position.byte += n; if (position.byte >= partition->bytesPerSector) { byte = 0; sector++; }
abbrev pub after_bytes : Partition → FilePosition → ℕ → FilePosition
after_bytes p q n =
    if leb p.bytes_per_sector (q.byte + n)
    then record q { byte = 0; sector = u32 (q.sector + 1) }
    else record q { byte = q.byte + n }

-- How many bytes the rest of the sector takes, of `remain`.
abbrev pub to_sector_end : Partition → FilePosition → ℕ → ℕ
to_sector_end p q remain =
    let left = sub32 p.bytes_per_sector q.byte in if ltb remain left then remain else left

-- How many sectors the rest of the cluster takes.
abbrev pub to_cluster_end : Partition → FilePosition → ℕ → ℕ
to_cluster_end p q remain =
    let left = sub32 p.sectors_per_cluster q.sector in
    if ltb (u32 (left * p.bytes_per_sector)) remain then left else remain / p.bytes_per_sector

-- The buffer from `ptr` on, and what a call that wrote `there` at `ptr` leaves of the buffer.
abbrev pub at_ptr : Buffer → ℕ → Buffer
at_ptr buffer ptr k = buffer (ptr + k)

abbrev pub with_ptr : Buffer → ℕ → Buffer → Buffer
with_ptr buffer ptr there k = if leb ptr k then there (k - ptr) else buffer k

-- How many bytes of `len` there are up to the end of the file: what a read is to return.
abbrev pub readable : FileStruct → ℕ → ℕ
readable file len =
    if ltb file.filesize (len + file.current_position)
    then file.filesize - file.current_position
    else len
