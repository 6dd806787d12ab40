-- ===== src/Cache/Page/Refine.antt =====
-- `_FAT_cache_getPage` does not change the sectors that the cache stands for, and the page that it
-- returns holds the sector.
use libfat.Base.{
  ℕ, ◌<◌, ◌≡◌, inl, inr, Bool, true, false, arith, sub32, Bool-cases, Option, none, some, refl,
}
use libfat.Disc.{DiscInterface, Contract, IsHealthy}
use libfat.Cache.State.{CacheConfig, CacheState, cache_free}
use libfat.Cache.Invariant.{Sectors, IsSound, Covers, Refines}
use libfat.Cache.Page.{
  PageSearch, touch, evict, page_base, page_end, fill, load_page, get_page, hit, miss,
}
use libfat.Cache.Page.Search.{Found, find_page-Found}
use libfat.Cache.Page.Bounds.{page_bounds}
use libfat.Cache.Page.Evict.{touch-Refines, evict-Refines}
use libfat.Cache.Page.Fill.{fill-Refines}

module _ {disc : DiscInterface} (config : CacheConfig) (sound : IsSound config)
    (contract : Contract disc config.bytes_per_sector) (sectors : Sectors) where
  open config use {number_of_pages, bytes_per_sector, end_of_partition, sectors_per_page}

  -- The outcome of a call that asks for the page of `sector`.
  abbrev pub Fetched : ℕ → Option ℕ × CacheState disc → Type 0
  Fetched sector (none, st) = Unit
  Fetched sector (some i, st) =
      (i < number_of_pages)
      × Covers (st.cache_entries i) sector
      × Refines config contract st sectors

  pub Fetched-some :
      (sector i : ℕ) (p : Option ℕ × CacheState disc)
      → p.0 ≡ some i
      → Fetched sector p
      → Fetched sector (some i, p.1)
  Fetched-some sector i (none, st) e f = cc
  Fetched-some sector i (some j, st) e f = let e' : j ≡ i = cc in rw (← e') f

  module _ (st : CacheState disc) (sector : ℕ) (r : Refines config contract st sectors)
      (inside : sector < end_of_partition) where
    evict-absent :
        (used : ℕ) (ff : Bool)
        → ((j : ℕ) → j < number_of_pages → ¬ (Covers (st.cache_entries j) sector))
        → (j : ℕ) → j < number_of_pages
        → ¬ (Covers ((evict disc config st used ff).1.cache_entries j) sector)
    unfolding evict
    evict-absent used ff absent j h c = ground (arith, absent j h)

    evict-clean :
        (used : ℕ) (ff : Bool)
        → used < number_of_pages
        → (ff ≡ true → (st.cache_entries used).sector ≡ cache_free)
        → (evict disc config st used ff).0 ≡ true
        → ((evict disc config st used ff).1.cache_entries used).dirty ≡ false
    unfolding evict
    evict-clean used ff lt free ok = ground (arith, r.shape used, sound.no_wrap)

    -- What the search has found, and what becomes of it.
    load_page-Fetched :
        (used : ℕ) (ff : Bool)
        → Found config sound st.cache_entries sector number_of_pages r.shape inside 0 (miss used ff)
        → Fetched sector (load_page disc config st sector used ff)
    unfolding load_page
    load_page-Fetched used ff (lt, absent, free) =
        elim (Bool-cases (evict disc config st used ff).0) [
          | inl ok ↦
              elim (Bool-cases (fill disc config (evict disc config st used ff).1 used sector).0) [
                | inl loaded ↦
                    rw (ok, loaded)
                      (let (r', c) =
                          fill-Refines config sound contract sectors
                            (evict disc config st used ff).1 used sector lt inside
                            (evict-Refines config sound contract sectors st used ff lt free r)
                            (evict-clean used ff lt free ok)
                            (evict-absent used ff (λ j. absent j (omega arith))) loaded in
                        (lt, c, r'))
                | inr failed ↦ rw (ok, failed) tt
              ]
          | inr failed ↦ rw failed tt
        ]

    touch-Covers :
        (i : ℕ)
        → Covers (st.cache_entries i) sector
        → Covers ((touch disc config st i).cache_entries i) sector
    unfolding touch
    touch-Covers i c = ground arith

    search-Fetched :
        (p : PageSearch)
        → Found config sound st.cache_entries sector number_of_pages r.shape inside 0 p
        → Fetched sector (elim p [
          | hit i ↦ (some i, touch disc config st i)
          | miss used found_free ↦ load_page disc config st sector used found_free
        ])
    search-Fetched (hit i) f =
        (f.0, touch-Covers i f.1, touch-Refines config sound contract sectors st i f.0 r)
    search-Fetched (miss used ff) f = load_page-Fetched used ff f

    -- For a sector of the partition: where `_FAT_cache_getPage` returns a page, it is a page of the
    -- cache that holds the sector, and the cache stands for the same sectors as before.
    pub get_page-Fetched : Fetched sector (get_page disc config st sector)
    unfolding get_page
    get_page-Fetched = search-Fetched _ (
        find_page-Found config sound st.cache_entries sector number_of_pages r.shape inside
          number_of_pages 0 false 0 cache_free (omega arith) (omega (arith, sound.some_pages))
          (λ e. cc))

    -- On a medium without faults the page is always there.
    evict-written :
        IsHealthy disc end_of_partition
        → (used : ℕ) (ff : Bool) → used < number_of_pages
        → (ff ≡ true → (st.cache_entries used).sector ≡ cache_free)
        → (evict disc config st used ff).0 ≡ true
    unfolding evict
    evict-written healthy used ff lt free =
        let e = st.cache_entries used in
        ground (arith, r.shape used, healthy.writes st.medium e.sector e.count e.cache)

    fill-loaded :
        IsHealthy disc end_of_partition
        → (st' : CacheState disc) (used : ℕ) → (fill disc config st' used sector).0 ≡ true
    unfolding fill
    fill-loaded healthy st' used = ground (
      arith,
      page_bounds config sound sector inside,
      healthy.reads st'.medium (page_base config sector)
          (sub32 (page_end config sector) (page_base config sector)) (st'.cache_entries used).cache,
    )

    load_page-some :
        IsHealthy disc end_of_partition
        → (used : ℕ) (ff : Bool) → used < number_of_pages
        → (ff ≡ true → (st.cache_entries used).sector ≡ cache_free)
        → (load_page disc config st sector used ff).0 ≡ some used
    unfolding load_page
    load_page-some healthy used ff lt free =
        rw (evict-written healthy used ff lt free, fill-loaded healthy _ used) refl

    search-some :
        IsHealthy disc end_of_partition
        → (p : PageSearch)
        → Found config sound st.cache_entries sector number_of_pages r.shape inside 0 p
        → (i : ℕ) × ((elim p as (λ _. Option ℕ × CacheState disc) [
          | hit i ↦ (some i, touch disc config st i)
          | miss used found_free ↦ load_page disc config st sector used found_free
        ]).0
            ≡ some i)
    search-some healthy (hit i) f = (i, refl)
    search-some healthy (miss used ff) f = (used, load_page-some healthy used ff f.0 f.2)

    -- On a medium without faults it returns a page for every sector of the partition.
    pub get_page-some :
        IsHealthy disc end_of_partition → (i : ℕ) × ((get_page disc config st sector).0 ≡ some i)
    unfolding get_page
    get_page-some healthy = search-some healthy _ (
        find_page-Found config sound st.cache_entries sector number_of_pages r.shape inside
          number_of_pages 0 false 0 cache_free (omega arith) (omega (arith, sound.some_pages))
          (λ e. cc))
