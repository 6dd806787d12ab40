-- ===== src/Partition/Mount.antt =====
-- `_FAT_partition_constructor_buf` of source/partition.c as a whole.
pub mod Crash
use libfat.Base.{
  ℕ, ◌+◌, ◌≤◌, ◌<◌, ◌≡◌, ◌⊎◌, Bool, true, false, not, ◌&&◌, ◌||◌, u32, ◌==◌, if◌then◌else◌, Option,
  none, some, Buffer,
}
use libfat.Disc.{DiscInterface, can_write}
use libfat.Cache.State.{CacheConfig, CacheState, constructor_config, constructor_state}
use libfat.Store.Cached.{cache_store}
use libfat.Partition.State.{Partition, Volume}
use libfat.Partition.Find.{
  has_bytes, fat_sig, is_valid_mbr, find_first_valid_partition, bpb_fat16_file_sys_type,
  bpb_fat32_file_sys_type,
}
use libfat.Partition.Boot.{Boot, refused, undefined, mounted, read_boot_sector}
use libfat.Partition.FsInfo.{read_fs_info}
use libfat.Fat.Entry.{cluster_first}

module _ (disc : DiscInterface) where
  -- A mounted volume, with the cache that its operations use.
  pub record Device : Type 0 where
    pub partition : Partition
    pub config : CacheConfig
    pub volume : Volume (cache_store disc config)

  -- NULL, undefined behaviour, or the PARTITION.
  pub data Mount : Type 0 where
    null : Mount
    crash : Mount
    device : Device → Mount

  -- Where the volume starts, once the first sector is read: `none` is the failure of a read.
  pub find_start :
      disc.Medium
      → Buffer
      → ℕ
      → Option (record { start : ℕ; buffer : Buffer; medium : disc.Medium })
  find_start m b start =
      let s = find_first_valid_partition disc m b in
      let r = disc.read_sectors s.medium s.lba 1 s.buffer in
      if not (start == 0)
      then some (record { start = start; buffer = b; medium = m })
      else if has_bytes b bpb_fat16_file_sys_type fat_sig
          || has_bytes b bpb_fat32_file_sys_type fat_sig
      then some (record { start = 0; buffer = b; medium = m })
      else if r.ok
      then some (record { start = s.lba; buffer = r.buffer; medium = r.medium })
      else none

  -- The volume as it is before its FSinfo sector is read.
  pub fresh_device : Partition → ℕ → ℕ → ℕ → (ℕ → Buffer) → disc.Medium → ℕ → Device
  fresh_device p start cache_size sectors_per_page buffers m counter =
      let config =
        constructor_config cache_size sectors_per_page (u32 (start + p.number_of_sectors))
          p.bytes_per_sector in
      record {
        partition = p;
        config = config;
        volume = record {
          first_free = cluster_first;
          number_free_cluster = 0;
          number_last_alloc_cluster = 0;
          cwd_cluster = p.root_dir_cluster;
          cache = constructor_state buffers m counter;
        };
      }

  pub with_fs_info : Device → Device
  with_fs_info d = record d { volume = read_fs_info disc d.config d.partition d.volume }

  pub mount_at : Boot → ℕ → ℕ → ℕ → (ℕ → Buffer) → disc.Medium → ℕ → Mount
  unfolding fresh_device with_fs_info
  mount_at refused start cache_size sectors_per_page buffers m counter = null
  mount_at undefined start cache_size sectors_per_page buffers m counter = crash
  mount_at (mounted p) start cache_size sectors_per_page buffers m counter =
      device (with_fs_info (fresh_device p start cache_size sectors_per_page buffers m counter))

  -- `buffers` is the memory of the cache's pages and `buffer` that of the first sector.
  pub mount : disc.Medium → Buffer → ℕ → ℕ → ℕ → (ℕ → Buffer) → ℕ → Mount
  unfolding find_start mount_at
  mount m buffer cache_size sectors_per_page start buffers counter =
      let r = disc.read_sectors m start 1 buffer in
      if not r.ok
      then null
      else if not (r.buffer 0x1FE == 0x55) || not (r.buffer 0x1FF == 0xAA)
      then null
      else elim (find_start r.medium r.buffer start) [
        | none ↦ null
        | some f ↦
            if is_valid_mbr f.buffer
            then mount_at (read_boot_sector f.buffer f.start (not (can_write disc))) f.start
                cache_size sectors_per_page buffers f.medium counter
            else null
      ]
