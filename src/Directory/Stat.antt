-- ===== src/Directory/Stat.antt =====
-- `_FAT_directory_entryStat` of source/directory.c, as it is built with GOMWING, with the tests on the
-- attributes of source/directory.h. The bits of st_mode are those of <sys/stat.h>; a time is what is
-- handed to mktime.
use libfat.Base.{ℕ, ◌+◌, ◌-◌, ◌/◌, Bool, not, ◌==◌, bit_and, bit_or, if◌then◌else◌, Buffer}
use libfat.BitOps.{u8array_to_u16, u8array_to_u32}
use libfat.Partition.State.{Partition}
use libfat.Directory.Entry.{attrib_dir, entry_get_cluster}
use libfat.FileTime.{Tm, to_tm}

abbrev pub attrib_ro : ℕ
attrib_ro = 0x01

unfoldable pub is_directory : Buffer → Bool
is_directory entry_data = not (bit_and (entry_data 0x0B) attrib_dir == 0)

unfoldable pub is_writable : Buffer → Bool
is_writable entry_data = bit_and (entry_data 0x0B) attrib_ro == 0

abbrev pub s_ifdir : ℕ
s_ifdir = 0x4000

abbrev pub s_ifreg : ℕ
s_ifreg = 0x8000

-- S_IRUSR | S_IRGRP | S_IROTH
abbrev pub s_read : ℕ
s_read = 0x124

-- S_IWUSR | S_IWGRP | S_IWOTH
abbrev pub s_write : ℕ
s_write = 0x92

pub record Stat : Type 0 where
  pub st_dev : ℕ
  pub st_ino : ℕ
  pub st_mode : ℕ
  pub st_nlink : ℕ
  pub st_uid : ℕ
  pub st_gid : ℕ
  pub st_rdev : ℕ
  pub st_size : ℕ
  pub st_atime : Tm
  pub st_mtime : Tm
  pub st_ctime : Tm
  pub st_blksize : ℕ
  pub st_blocks : ℕ

-- `io_type` is what `_FAT_disc_hostType` gives.
unfoldable pub entry_stat : Partition → ℕ → Buffer → Stat
unfolding is_directory is_writable
entry_stat p io_type entry_data =
    let size = u8array_to_u32 entry_data 0x1C in
    record {
      st_dev = io_type;
      st_ino = entry_get_cluster p entry_data;
      st_mode =
          bit_or (bit_or (if is_directory entry_data then s_ifdir else s_ifreg) s_read)
            (if is_writable entry_data then s_write else 0);
      st_nlink = 1;
      st_uid = 1;
      st_gid = 2;
      st_rdev = io_type;
      st_size = size;
      st_atime = to_tm 0 (u8array_to_u16 entry_data 0x12);
      st_mtime = to_tm (u8array_to_u16 entry_data 0x16) (u8array_to_u16 entry_data 0x18);
      st_ctime = to_tm (u8array_to_u16 entry_data 0x0E) (u8array_to_u16 entry_data 0x10);
      st_blksize = p.bytes_per_sector;
      st_blocks = (size + p.bytes_per_sector - 1) / p.bytes_per_sector;
    }
