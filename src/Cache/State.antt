-- ===== src/Cache/State.antt =====
-- CACHE and CACHE_ENTRY of source/cache.h, with the medium that the cache stands before.
pub mod Fresh
use libfat.Base.{ℕ, ◌-◌, ◌^◌, ◌≡◌, Bool, true, false, Buffer, if◌then◌else◌, ◌==◌, ltb}
use libfat.Disc.{DiscInterface}

-- The fields of CACHE that nothing writes after the constructor (`disc` is a parameter).
pub record CacheConfig : Type 0 where
  pub end_of_partition : ℕ
  pub number_of_pages : ℕ
  pub sectors_per_page : ℕ
  pub bytes_per_sector : ℕ

pub record CacheEntry : Type 0 where
  pub sector : ℕ
  pub count : ℕ
  pub last_access : ℕ
  pub dirty : Bool
  pub cache : Buffer

-- What the operations change: the pages of the CACHE, the medium, and the global counter.
pub record CacheState (disc : DiscInterface) : Type 0 where
  pub cache_entries : ℕ → CacheEntry
  pub medium : disc.Medium
  pub access_counter : ℕ

-- UINT_MAX
abbrev pub cache_free : ℕ
cache_free = 2 ^ 32 - 1

-- cacheEntries[i] = e
abbrev pub set_entry : (ℕ → CacheEntry) → ℕ → CacheEntry → ℕ → CacheEntry
set_entry entries i e j = if j == i then e else entries j

-- The pages as the constructor leaves them; `buffers` is the memory that it allocated.
pub fresh_entries : (ℕ → Buffer) → ℕ → CacheEntry
fresh_entries buffers i = record {
  sector = cache_free;
  count = 0;
  last_access = 0;
  dirty = false;
  cache = buffers i;
}

-- `_FAT_cache_constructor`, where both allocations succeed.
pub constructor_config : ℕ → ℕ → ℕ → ℕ → CacheConfig
constructor_config number_of_pages sectors_per_page end_of_partition bytes_per_sector = record {
  end_of_partition = end_of_partition;
  number_of_pages = if ltb number_of_pages 2 then 2 else number_of_pages;
  sectors_per_page = if ltb sectors_per_page 8 then 8 else sectors_per_page;
  bytes_per_sector = bytes_per_sector;
}

pub constructor_state : {disc : DiscInterface} → (ℕ → Buffer) → disc.Medium → ℕ → CacheState disc
constructor_state buffers medium counter = record {
  cache_entries = fresh_entries buffers;
  medium = medium;
  access_counter = counter;
}
