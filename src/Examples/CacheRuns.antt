-- ===== src/Examples/CacheRuns.antt =====
-- The cache at the example volume.
use libfat.Base.{ℕ, ◌+◌, ◌*◌, ◌≤◌, ◌<◌, ◌≡◌, ◌⊎◌, true, false, some, arith}
use libfat.BitOps.{u8array_to_u16, u8array_to_u32, u16_to_u8array, u32_to_u8array}
use libfat.BitOps.RoundTrip.{u8array-u8array}
use libfat.Disc.Ram.{ram, ram_contract}
use libfat.Cache.State.{constructor_state, constructor_config}
use libfat.Cache.State.Fresh.{constructor_state-Refines, constructor_config-IsSound}
use libfat.Cache.Invariant.{Sectors, IsSound, IsFree, Refines}
use libfat.Cache.Page.{get_page}
use libfat.Cache.Page.Refine.{Fetched, get_page-Fetched, get_page-some}
use libfat.Cache.Sector.{Read, Write, erase_write_partial_sector}
use libfat.Cache.Sector.Partial.{put_bytes, erase, erase_write_partial_sector-Refines}
use libfat.Cache.Run.{read_sectors, write_sectors}
use libfat.Cache.Run.Reading.{read_sectors-Refines}
use libfat.Cache.Run.Writing.{put_run, write_sectors-Refines}
use libfat.Cache.Flush.{flush, invalidate}
use libfat.Cache.Flush.Clean.{flush-Refines}
use libfat.Cache.Flush.Invalidate.{invalidate-Refines}
use libfat.Store.{IsStore}
use libfat.Store.Cached.{cache_store, Stands, Stored, cache_store-IsStore}
use libfat.Examples.Setup.{
  two_pages, two_pages-IsSound, disc_image, healthy, sevens, dirty_cache, dirty_cache-Refines,
}

abbrev dirty_image : Sectors
dirty_image = put_bytes disc_image 9 4 2 sevens

get_page-Fetched_example :
    Fetched two_pages two_pages-IsSound ram_contract dirty_image 20
      (get_page ram two_pages dirty_cache 20)
get_page-Fetched_example =
    get_page-Fetched two_pages two_pages-IsSound ram_contract dirty_image dirty_cache 20
      dirty_cache-Refines (omega arith)

get_page-some_example : (i : ℕ) × ((get_page ram two_pages dirty_cache 20).0 ≡ some i)
get_page-some_example =
    get_page-some two_pages two_pages-IsSound ram_contract dirty_image dirty_cache 20
      dirty_cache-Refines (omega arith) healthy

erase_write_partial_sector_example :
    let r = erase_write_partial_sector ram two_pages dirty_cache sevens 1 10 2 in
    (r.ok ≡ true)
    × Refines two_pages ram_contract r.state (put_bytes (erase dirty_image 1) 1 10 2 sevens)
erase_write_partial_sector_example =
    erase_write_partial_sector-Refines two_pages two_pages-IsSound ram_contract dirty_image 1 10 2
      sevens (omega arith) (omega arith) dirty_cache healthy dirty_cache-Refines

-- From the first page into the second.
read_sectors_example :
    (x : Read ram two_pages) × (read_sectors ram two_pages dirty_cache 6 4 (λ k. 0) ≡ some x)
    × (x.ok ≡ true)
    × ((k o : ℕ) → k < 4 → o < 512 → x.buffer (k * 512 + o) ≡ dirty_image (6 + k) o)
    × Refines two_pages ram_contract x.state dirty_image
read_sectors_example =
    read_sectors-Refines two_pages two_pages-IsSound ram_contract healthy dirty_image dirty_cache
      (λ k. 0) 6 4 (omega arith) dirty_cache-Refines

write_sectors_example :
    (x : Write ram two_pages) × (write_sectors ram two_pages dirty_cache 6 4 sevens ≡ some x)
    × (x.ok ≡ true)
    × Refines two_pages ram_contract x.state (put_run 512 dirty_image 6 4 sevens 0)
write_sectors_example =
    write_sectors-Refines two_pages two_pages-IsSound ram_contract healthy dirty_image dirty_cache
      sevens 6 4 (omega arith) dirty_cache-Refines

flush-Refines_example :
    let r = flush ram two_pages dirty_cache in
    Refines two_pages ram_contract r.1 dirty_image
    × ((r.0 ≡ false)
        ⊎ ((r.0 ≡ true)
            × ((i : ℕ) → i < 2 → (r.1.cache_entries i).dirty ≡ false)
            × ((s o : ℕ) → s < 64 → o < 512 → r.1.medium s o ≡ dirty_image s o)))
flush-Refines_example =
    flush-Refines two_pages ram_contract dirty_image dirty_cache dirty_cache-Refines

invalidate_example :
    let st = invalidate ram two_pages dirty_cache in
    Refines two_pages ram_contract st dirty_image × ((i : ℕ) → i < 2 → IsFree (st.cache_entries i))
invalidate_example =
    invalidate-Refines two_pages ram_contract dirty_image dirty_cache healthy dirty_cache-Refines

constructor_config_example :
    let c = constructor_config 0 1 64 512 in
    IsSound c
    × (8 ≤ c.sectors_per_page)
    × (2 ≤ c.number_of_pages)
    × (1 ≤ c.sectors_per_page)
    × (0 ≤ c.number_of_pages)
    × ((c.sectors_per_page ≡ 1) ⊎ (c.sectors_per_page ≡ 8))
    × ((c.number_of_pages ≡ 0) ⊎ (c.number_of_pages ≡ 2))
constructor_config_example = constructor_config-IsSound 0 1 64 512 (omega arith) (omega arith)

constructor_state_example :
    Refines two_pages ram_contract (constructor_state (λ i o. 9) disc_image 5) disc_image
constructor_state_example = constructor_state-Refines two_pages ram_contract (λ i o. 9) disc_image 5

cache_store_example :
    (laws : IsStore (cache_store ram two_pages) 64 512) × (laws.Holds
      ≡ Stands two_pages two_pages-IsSound ram_contract healthy)
    × (laws.OnMedium ≡ Stored two_pages two_pages-IsSound ram_contract healthy)
cache_store_example = cache_store-IsStore two_pages two_pages-IsSound ram_contract healthy

u8array_example :
    (u8array_to_u16 (u16_to_u8array sevens 3 70000) 3 ≡ 4464)
    × (u8array_to_u32 (u32_to_u8array sevens 3 70000) 3 ≡ 70000)
    × ((i : ℕ) → (i < 3) ⊎ (5 ≤ i) → u16_to_u8array sevens 3 70000 i ≡ 7)
    × ((i : ℕ) → (i < 3) ⊎ (7 ≤ i) → u32_to_u8array sevens 3 70000 i ≡ 7)
u8array_example = u8array-u8array sevens 3 70000
