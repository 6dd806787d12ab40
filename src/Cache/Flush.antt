-- ===== src/Cache/Flush.antt =====
-- `_FAT_cache_flush` and `_FAT_cache_invalidate` of source/cache.c.
pub mod Clean
pub mod Invalidate
use libfat.Base.{ℕ, zero, suc, ◌+◌, Bool, true, false, if◌then◌else◌}
use libfat.Disc.{DiscInterface}
use libfat.Cache.State.{CacheConfig, CacheEntry, CacheState, cache_free, set_entry}

module _ (disc : DiscInterface) (config : CacheConfig) where
  -- The body of the loop: `false` is its early return.
  pub flush_page : CacheState disc → ℕ → Bool × CacheState disc
  flush_page st i =
      let e = st.cache_entries i in
      let w = disc.write_sectors st.medium e.sector e.count e.cache in
      let clean = set_entry st.cache_entries i (record e { dirty = false }) in
      if e.dirty
      then (if w.ok
          then (true, record st { cache_entries = clean; medium = w.medium })
          else (false, record st { medium = w.medium }))
      else (true, record st { cache_entries = clean })

  pub flush_from : ℕ → CacheState disc → ℕ → Bool × CacheState disc
  unfolding flush_page
  flush_from zero st i = (true, st)
  flush_from (suc left) st i =
      let (ok, st') = flush_page st i in
      let rest = flush_from left st' (i + 1) in if ok then rest else (false, st')

  pub flush : CacheState disc → Bool × CacheState disc
  unfolding flush_from
  flush st = flush_from config.number_of_pages st 0

  -- The loop from page `i` on, with `left` pages to come.
  pub invalidate_from : ℕ → CacheState disc → ℕ → CacheState disc
  invalidate_from zero st i = st
  invalidate_from (suc left) st i =
      let e = st.cache_entries i in
      invalidate_from left
        (record st {
          cache_entries =
              set_entry st.cache_entries i
                (record e { sector = cache_free; last_access = 0; count = 0; dirty = false });
        })
        (i + 1)

  pub invalidate : CacheState disc → CacheState disc
  unfolding flush invalidate_from
  invalidate st = invalidate_from config.number_of_pages (flush st).1 0
