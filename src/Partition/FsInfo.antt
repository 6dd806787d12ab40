-- ===== src/Partition/FsInfo.antt =====
-- The FSinfo sector of a FAT32 volume: `_FAT_partition_readFSinfo` and its neighbours of
-- source/partition.c. These transfers pass by the cache.
pub mod RoundTrip
use libfat.Base.{ℕ, ◌+◌, Bool, true, false, not, ◌&&◌, ◌||◌, ◌==◌, if◌then◌else◌, Buffer, memset}
use libfat.Base.Lists.{List, [], ◌∷◌}
use libfat.BitOps.{u8array_to_u32, u32_to_u8array, store}
use libfat.Disc.{DiscInterface}
use libfat.Cache.State.{CacheConfig, CacheState}
use libfat.Store.Cached.{cache_store}
use libfat.Partition.State.{Partition, Volume}
use libfat.Partition.Find.{has_bytes}
use libfat.Partition.Boot.{is_fat32}
use libfat.Fat.Chain.{free_cluster_count}

-- "RRaA" and "rrAa"
abbrev pub fs_info_sig1 : List ℕ
fs_info_sig1 = 0x52 ∷ 0x52 ∷ 0x61 ∷ 0x41 ∷ []

abbrev pub fs_info_sig2 : List ℕ
fs_info_sig2 = 0x72 ∷ 0x72 ∷ 0x41 ∷ 0x61 ∷ []

abbrev pub fsib_sig2 : ℕ
fsib_sig2 = 0x1e4

abbrev pub fsib_number_of_free_cluster : ℕ
fsib_number_of_free_cluster = 0x1e8

abbrev pub fsib_number_last_alloc_cluster : ℕ
fsib_number_last_alloc_cluster = 0x1ec

unfoldable pub is_fs_info : Buffer → Bool
unfolding has_bytes
is_fs_info b = has_bytes b 0 fs_info_sig1 && has_bytes b fsib_sig2 fs_info_sig2

-- The two counters in the sector.
abbrev pub put_counters : Buffer → ℕ → ℕ → Buffer
put_counters b free last =
    u32_to_u8array (u32_to_u8array b fsib_number_of_free_cluster free)
      fsib_number_last_alloc_cluster last

-- The bytes that `_FAT_partition_createFSinfo` sets.
pub new_fs_info : Buffer
new_fs_info =
    let b = store (store (store (store (λ i. 0) 0 0x52) 1 0x52) 2 0x61) 3 0x41 in
    let b' = store (store (store (store b 0x1e4 0x72) 0x1e5 0x72) 0x1e6 0x41) 0x1e7 0x61 in
    store (store b' 0x1FE 0x55) 0x1FF 0xAA

module _ (disc : DiscInterface) (config : CacheConfig) (p : Partition) where
  abbrev pub Mounted : Type 0
  Mounted = Volume (cache_store disc config)

  abbrev pub on_medium : Mounted → disc.Medium → Mounted
  on_medium v m = record v { cache = record (v.cache) { medium = m } }

  pub update_fs_info : Mounted → Buffer → Mounted × Buffer
  update_fs_info v b =
      let (count, st) = free_cluster_count (cache_store disc config) p v.cache in
      let b' = put_counters b count v.number_last_alloc_cluster in
      let w = disc.write_sectors st.medium p.fs_info_sector 1 b' in
      (on_medium (record v { number_free_cluster = count; cache = st }) w.medium, b')

  pub create_fs_info : Mounted → Mounted
  unfolding update_fs_info new_fs_info
  create_fs_info v =
      if p.read_only || not (is_fat32 p.filesys_type) then v else (update_fs_info v new_fs_info).0

  pub read_fs_info : Mounted → Mounted
  unfolding create_fs_info update_fs_info
  read_fs_info v =
      let r = disc.read_sectors v.cache.medium p.fs_info_sector 1 (λ i. 0) in
      let v' = on_medium v r.medium in
      let free = u8array_to_u32 r.buffer fsib_number_of_free_cluster in
      let (v'', b) = update_fs_info (record v' { number_free_cluster = free }) r.buffer in
      if not (is_fat32 p.filesys_type)
      then v
      else if not r.ok
      then v'
      else if not (is_fs_info r.buffer) || free == 0
      then create_fs_info v'
      else if free == 0xffffffff
      then record v'' {
        number_free_cluster = u8array_to_u32 b fsib_number_of_free_cluster;
        number_last_alloc_cluster = u8array_to_u32 b fsib_number_last_alloc_cluster;
      }
      else record v' {
        number_free_cluster = free;
        number_last_alloc_cluster = u8array_to_u32 r.buffer fsib_number_last_alloc_cluster;
      }

  pub write_fs_info : Mounted → Mounted
  write_fs_info v =
      let r = disc.read_sectors v.cache.medium p.fs_info_sector 1 (λ i. 0) in
      let b = put_counters r.buffer v.number_free_cluster v.number_last_alloc_cluster in
      let w = disc.write_sectors r.medium p.fs_info_sector 1 b in
      if not (is_fat32 p.filesys_type)
      then v
      else if not r.ok || not (is_fs_info r.buffer)
      then on_medium v r.medium
      else on_medium v w.medium
