-- ===== src/Cache/Page.antt =====
-- `_FAT_cache_getPage`: the page that holds a sector, loaded over the least recently used one
-- where none does.

mod Search
mod Bounds
mod Evict
mod Fill
pub mod Refine
use libfat.Base.{
  ℕ, zero, suc, ◌+◌, ◌*◌, ◌/◌, Bool, true, false, Option, none, some, not, ◌&&◌, ◌||◌, u32, sub32,
  ltb, leb, ◌==◌, if◌then◌else◌,
}
use libfat.Disc.{DiscInterface}
use libfat.Cache.State.{CacheConfig, CacheEntry, CacheState, cache_free, set_entry}

-- What the search loop finds: a page with the sector, or the page to load it over, with foundFree.
pub data PageSearch : Type 0 where
  hit : ℕ → PageSearch
  miss : ℕ → Bool → PageSearch

-- sector >= entry.sector && sector < entry.sector + entry.count
pub holds : CacheEntry → ℕ → Bool
holds e sector = leb e.sector sector && ltb sector (u32 (e.sector + e.count))

-- The loop from page `i` on, with `left` pages to come.
pub find_page : (ℕ → CacheEntry) → ℕ → ℕ → ℕ → Bool → ℕ → ℕ → PageSearch
unfolding holds
find_page entries sector zero i found_free old_used old_access = miss old_used found_free
find_page entries sector (suc left) i found_free old_used old_access =
    let e = entries i in
    let older = not found_free && (e.sector == cache_free || ltb e.last_access old_access) in
    let rest =
      find_page entries sector left (i + 1) (found_free || older && e.sector == cache_free)
        (if older then i else old_used) (if older then e.last_access else old_access) in
    if holds e sector then hit i else rest

module _ (config : CacheConfig) where
  open config use {end_of_partition, sectors_per_page}

  -- First sector of the page of a sector, and the first one after it.
  pub page_base : ℕ → ℕ
  page_base sector = sector / sectors_per_page * sectors_per_page

  pub page_end : ℕ → ℕ
  unfolding page_base
  page_end sector =
      let next_page = u32 (page_base sector + sectors_per_page) in
      if ltb end_of_partition next_page then end_of_partition else next_page

module _ (disc : DiscInterface) (config : CacheConfig) where
  open config use {number_of_pages}

  -- entry.last_access = accessTime()
  pub touch : CacheState disc → ℕ → CacheState disc
  touch st i =
      let now = u32 (st.access_counter + 1) in
      record st {
        cache_entries =
            set_entry st.cache_entries i (record (st.cache_entries i) { last_access = now });
        access_counter = now;
      }

  -- Write the page back if it is dirty; on failure it stays dirty.
  pub evict : CacheState disc → ℕ → Bool → Bool × CacheState disc
  evict st used found_free =
      let e = st.cache_entries used in
      let w = disc.write_sectors st.medium e.sector e.count e.cache in
      if not found_free && e.dirty
      then (
        w.ok,
        record st {
          cache_entries =
              if w.ok
              then set_entry st.cache_entries used (record e { dirty = false })
              else st.cache_entries;
          medium = w.medium;
        },
      )
      else (true, st)

  -- Read the page over page `used`; on failure that keeps its tags, with what the driver left.
  pub fill : CacheState disc → ℕ → ℕ → Bool × CacheState disc
  unfolding page_base page_end
  fill st used sector =
      let e = st.cache_entries used in
      let count = sub32 (page_end config sector) (page_base config sector) in
      let r = disc.read_sectors st.medium (page_base config sector) count e.cache in
      let e' = record e { cache = r.buffer } in
      let now = u32 (st.access_counter + 1) in
      if r.ok
      then (
        true,
        record {
          cache_entries =
              set_entry st.cache_entries used
                (record e' { sector = page_base config sector; count = count; last_access = now });
          medium = r.medium;
          access_counter = now;
        },
      )
      else (
        false,
        record st { cache_entries = set_entry st.cache_entries used e'; medium = r.medium },
      )

  pub load_page : CacheState disc → ℕ → ℕ → Bool → Option ℕ × CacheState disc
  unfolding evict fill
  load_page st sector used found_free =
      let (written, st') = evict st used found_free in
      let (loaded, st'') = fill st' used sector in
      if written then (if loaded then (some used, st'') else (none, st'')) else (none, st')

  -- `none` is the NULL of the C function.
  pub get_page : CacheState disc → ℕ → Option ℕ × CacheState disc
  unfolding find_page touch load_page
  get_page st sector =
      elim (find_page st.cache_entries sector number_of_pages 0 false 0 cache_free) [
        | hit i ↦ (some i, touch st i)
        | miss used found_free ↦ load_page st sector used found_free
      ]
