-- ===== src/Partition/State.antt =====
-- FAT and PARTITION of source/partition.h. The label, the lock and the list of open files are not
-- in the record; the cache is the store beside it.
use libfat.Base.{ℕ, Bool}
use libfat.Store.{SectorStore}

pub data FsType : Type 0 where
  fs_unknown fs_fat12 fs_fat16 fs_fat32 : FsType

-- The fields of FAT and PARTITION that nothing writes after the constructor.
pub record FatInfo : Type 0 where
  pub fat_start : ℕ
  pub sectors_per_fat : ℕ
  pub last_cluster : ℕ

pub record Partition : Type 0 where
  pub filesys_type : FsType
  pub total_size : ℕ
  pub root_dir_start : ℕ
  pub root_dir_cluster : ℕ
  pub number_of_sectors : ℕ
  pub data_start : ℕ
  pub bytes_per_sector : ℕ
  pub sectors_per_cluster : ℕ
  pub bytes_per_cluster : ℕ
  pub fs_info_sector : ℕ
  pub fat : FatInfo
  pub read_only : Bool

-- The fields that change, and what `partition->cache` is.
pub record Volume (store : SectorStore) : Type 0 where
  pub first_free : ℕ
  pub number_free_cluster : ℕ
  pub number_last_alloc_cluster : ℕ
  pub cwd_cluster : ℕ
  pub cache : store.State
