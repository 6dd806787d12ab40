-- ===== src/Cache/Page/Evict.antt =====
-- `_FAT_cache_getPage` does not change the sectors that the cache stands for, and the page that it
-- returns holds the sector.
use libfat.Base.{ℕ, ◌+◌, ◌-◌, ◌<◌, ◌≡◌, inl, inr, Bool, true, false, not, ◌&&◌, arith, Bool-cases}
use libfat.Disc.{DiscInterface, Contract}
use libfat.Cache.State.{CacheConfig, CacheState, cache_free}
use libfat.Cache.Invariant.{Sectors, IsSound, Covers, Covers-cases, Refines}
use libfat.Cache.Page.{touch, evict}

module _ {disc : DiscInterface} (config : CacheConfig) (sound : IsSound config)
    (contract : Contract disc config.bytes_per_sector) (sectors : Sectors) where
  open config use {number_of_pages, bytes_per_sector, end_of_partition, sectors_per_page}

  pub touch-Refines :
      (st : CacheState disc) (i : ℕ)
      → i < number_of_pages
      → Refines config contract st sectors
      → Refines config contract (touch disc config st i) sectors
  unfolding touch
  touch-Refines st i lt r = record {
    shape = λ j h. ground (arith, r.shape j);
    cached = λ j s o h c b. ground (arith, r.cached j s o);
    stored =
        λ s o h b clean. ground (arith, r.stored s o h b (λ i hi ci. ground (arith, clean i hi)));
    alone = λ j k s h h' c c'. ground (arith, r.alone j k s);
  }

  evict_stored :
      (st : CacheState disc) (used : ℕ) (found_free : Bool)
      → used < number_of_pages
      → Refines config contract st sectors
      → (s o : ℕ) → s < end_of_partition
      → o < bytes_per_sector
      → ((i : ℕ)
          → i < number_of_pages
          → Covers ((evict disc config st used found_free).1.cache_entries i) s
          → ((evict disc config st used found_free).1.cache_entries i).dirty ≡ false)
      → contract.content (evict disc config st used found_free).1.medium s o ≡ sectors s o
  unfolding evict
  evict_stored st used ff lt r s o h b clean =
      let e = st.cache_entries used in
      elim (Bool-cases (not ff && e.dirty)) [
        | inl writes ↦ elim (Covers-cases e s) [
          | inl c ↦
              let back : e.sector + (s - e.sector) ≡ s = omega arith in
              ground (
                arith,
                back,
                clean used lt,
                r.cached used s o,
                contract.write_ok st.medium e.sector e.count e.cache (s - e.sector) o,
              )
          | inr out ↦ ground (
            arith,
            contract.write_keeps st.medium e.sector e.count e.cache s o,
            r.stored s o h b (λ i hi ci. ground (arith, clean i hi)),
          )
        ]
        | inr kept ↦ ground (arith, r.stored s o h b (λ i hi ci. ground (arith, clean i hi)))
      ]

  pub evict-Refines :
      (st : CacheState disc) (used : ℕ) (found_free : Bool)
      → used < number_of_pages
      → (found_free ≡ true → (st.cache_entries used).sector ≡ cache_free)
      → Refines config contract st sectors
      → Refines config contract (evict disc config st used found_free).1 sectors
  unfolding evict
  evict-Refines st used ff lt free r = record {
    shape = λ j h. ground (arith, r.shape j);
    cached = λ j s o h c b. ground (arith, r.cached j s o);
    stored = evict_stored st used ff lt r;
    alone = λ j k s h h' c c'. ground (arith, r.alone j k s);
  }
