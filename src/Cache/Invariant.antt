-- ===== src/Cache/Invariant.antt =====
-- The abstract view of the cache: a plain array of sectors. `Refines` says when the pages together
-- with the medium stand for such an array.
use libfat.Base.{ℕ, ◌+◌, ◌-◌, ◌*◌, ◌/◌, ◌^◌, ◌≤◌, ◌<◌, ◌≡◌, ◌⊎◌, false, arith}
use Prim.Native.Nat.{min}
use libfat.Disc.{DiscInterface, Contract}
use libfat.Cache.State.{CacheConfig, CacheEntry, CacheState, cache_free}

-- The byte at an offset of a sector.
abbrev pub Sectors : Type 0
Sectors = ℕ → ℕ → ℕ

-- What the constructor's arguments must be for the 32-bit sums of the code not to wrap.
pub record IsSound (config : CacheConfig) : Type 0 where
  pub some_pages : 2 ≤ config.number_of_pages
  pub some_sectors : 0 < config.sectors_per_page
  pub some_bytes : 0 < config.bytes_per_sector
  pub no_wrap : config.end_of_partition + config.sectors_per_page < 2 ^ 32

abbrev pub Covers : CacheEntry → ℕ → Type 0
Covers e s = (e.sector ≤ s) × (s < e.sector + e.count)

pub Covers-cases :
    (e : CacheEntry) (s : ℕ) → Covers e s ⊎ ((s < e.sector) ⊎ (e.sector + e.count ≤ s))
Covers-cases e s = grind arith

-- An unused page.
pub record IsFree (e : CacheEntry) : Type 0 where
  pub unused : e.sector ≡ cache_free
  pub empty : e.count ≡ 0
  pub clean : e.dirty ≡ false

-- A page in use starts at a multiple of the page size and goes on to the next one, or to the end.
pub record IsHeld (config : CacheConfig) (e : CacheEntry) : Type 0 where
  pub aligned : e.sector ≡ e.sector / config.sectors_per_page * config.sectors_per_page
  pub inside : e.sector < config.end_of_partition
  pub whole : e.count ≡ min config.sectors_per_page (config.end_of_partition - e.sector)

module _ {disc : DiscInterface} (config : CacheConfig) where
  open config use {number_of_pages, bytes_per_sector, end_of_partition}

  pub record Refines (contract : Contract disc bytes_per_sector) (st : CacheState disc)
      (sectors : Sectors) : Type 0 where
    pub shape :
        (i : ℕ)
        → i < number_of_pages
        → IsFree (st.cache_entries i) ⊎ IsHeld config (st.cache_entries i)
    -- A page holds the bytes of its sectors,
    pub cached :
        (i s o : ℕ)
        → i < number_of_pages
        → Covers (st.cache_entries i) s
        → o < bytes_per_sector
        → (st.cache_entries i).cache ((s - (st.cache_entries i).sector) * bytes_per_sector + o)
          ≡ sectors s o
    -- and the medium those of each sector that is on no dirty page.
    pub stored :
        (s o : ℕ)
        → s < end_of_partition
        → o < bytes_per_sector
        → ((i : ℕ)
            → i < number_of_pages
            → Covers (st.cache_entries i) s
            → (st.cache_entries i).dirty ≡ false)
        → contract.content st.medium s o ≡ sectors s o
    pub alone :
        (i j s : ℕ)
        → i < number_of_pages
        → j < number_of_pages
        → Covers (st.cache_entries i) s
        → Covers (st.cache_entries j) s
        → i ≡ j
