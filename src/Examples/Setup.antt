-- ===== src/Examples/Setup.antt =====
-- The volume of the examples.
use libfat.Base.{arith, ◌==◌, if◌then◌else◌, Buffer, refl, false}
use libfat.Disc.{IsHealthy}
use libfat.Disc.Ram.{ram, ram_contract, ram-IsHealthy}
use libfat.Cache.State.{CacheConfig, CacheState, constructor_state}
use libfat.Cache.State.Fresh.{constructor_state-Refines}
use libfat.Cache.Invariant.{Sectors, IsSound, Refines}
use libfat.Cache.Sector.{write_partial_sector}
use libfat.Cache.Sector.Partial.{put_bytes, write_partial_sector-Refines}
use libfat.Cache.Sector.Values.{IsByteSectors}
use libfat.Store.{SectorStore, IsStore}
use libfat.Store.Cached.{cache_store, cache_laws}
use libfat.Partition.State.{fs_fat12, Partition, Volume}
use libfat.Fat.Table.{IsFat, table}
use libfat.Fat.Chain.Shows.{Links, Shows}

abbrev pub two_pages : CacheConfig
two_pages = record {
  end_of_partition = 64;
  number_of_pages = 2;
  sectors_per_page = 8;
  bytes_per_sector = 512;
}

pub two_pages-IsSound : IsSound two_pages
two_pages-IsSound = record {
  some_pages = omega arith;
  some_sectors = omega arith;
  some_bytes = omega arith;
  no_wrap = omega arith;
}

-- Sector 1 is the table: 2 links to 3, 3 is the end of the chain, all else is free.
abbrev pub disc_image : Sectors
disc_image s o =
    if s == 1
    then (if o == 3 then 3 else if o == 4 then 0xF0 else if o == 5 then 0xFF else 0)
    else 0

pub disc_image-IsByteSectors : IsByteSectors disc_image
disc_image-IsByteSectors s o = ground arith

abbrev pub new_cache : CacheState ram
new_cache = constructor_state (λ i o. 0) disc_image 0

pub new_cache-Refines : Refines two_pages ram_contract new_cache disc_image
new_cache-Refines = constructor_state-Refines two_pages ram_contract (λ i o. 0) disc_image 0

pub healthy : IsHealthy ram 64
healthy = ram-IsHealthy 64

abbrev pub sevens : Buffer
sevens k = 7

-- The cache after a write that has not reached the medium.
abbrev pub dirty_cache : CacheState ram
dirty_cache = (write_partial_sector ram two_pages new_cache sevens 9 4 2).state

pub dirty_cache-Refines :
    Refines two_pages ram_contract dirty_cache (put_bytes disc_image 9 4 2 sevens)
dirty_cache-Refines =
    (write_partial_sector-Refines two_pages two_pages-IsSound ram_contract disc_image 9 4 2 sevens
      (omega arith) (omega arith) new_cache healthy new_cache-Refines).1

abbrev pub ram_store : SectorStore
ram_store = cache_store ram two_pages

abbrev pub ram_laws : IsStore ram_store 64 512
ram_laws = cache_laws two_pages two_pages-IsSound ram_contract healthy

abbrev pub small_volume : Partition
small_volume = record {
  filesys_type = fs_fat12;
  total_size = 32256;
  root_dir_start = 2;
  root_dir_cluster = 0;
  number_of_sectors = 63;
  data_start = 3;
  bytes_per_sector = 512;
  sectors_per_cluster = 1;
  bytes_per_cluster = 512;
  fs_info_sector = 0;
  fat = record { fat_start = 1; sectors_per_fat = 1; last_cluster = 10 };
  read_only = false;
}

pub small_volume-IsFat : IsFat small_volume 64
small_volume-IsFat = record {
  known = tt;
  some_bytes = omega arith;
  four = refl;
  region = omega arith;
  no_wrap = omega arith;
  entries = record { inside = omega arith; small = omega arith };
  numbers = omega arith;
}

abbrev pub image_links : Links
image_links = table disc_image small_volume

pub new_cache-Shows :
    Shows ram_store 64 small_volume ram_laws small_volume-IsFat disc_image new_cache image_links
new_cache-Shows = record {
  sectors = disc_image;
  holds = (new_cache-Refines, disc_image-IsByteSectors);
  spells = λ d. refl;
  outside = λ s o h. refl;
}

abbrev pub mounted : Volume ram_store
mounted = record {
  first_free = 2;
  number_free_cluster = 7;
  number_last_alloc_cluster = 3;
  cwd_cluster = 0;
  cache = new_cache;
}
