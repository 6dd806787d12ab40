-- ===== src/Cache/Flush/Invalidate.antt =====
-- `_FAT_cache_invalidate` flushes, and then forgets every page.
use libfat.Base.{ℕ, zero, suc, ◌+◌, ◌≤◌, ◌<◌, ◌≡◌, inl, true, false, arith, refl, ◌==◌}
use libfat.Disc.{DiscInterface, Contract, IsHealthy}
use native.Mathlib.Decide.{ℕ_discrete}
use libfat.Cache.State.{CacheConfig, CacheState, cache_free, set_entry}
use libfat.Cache.Invariant.{Sectors, IsFree, Refines}
use libfat.Cache.Flush.Clean.{flush_from-Refines, flush_from-clean, flush-succeeds}
use libfat.Cache.Flush.{flush, invalidate_from, invalidate}

module _ {disc : DiscInterface} (config : CacheConfig)
    (contract : Contract disc config.bytes_per_sector) (sectors : Sectors) where
  open config use {number_of_pages, bytes_per_sector, end_of_partition}

  abbrev Stands : CacheState disc → Type 0
  Stands st = Refines config contract st sectors

  -- The pages from `i` on, `left` of them, are free afterwards, and the others stay.
  invalidate_from_lem :
      (left : ℕ) (st : CacheState disc) (i : ℕ)
      → let st' = invalidate_from disc config left st i in
        ((j : ℕ) → i ≤ j → j < i + left → IsFree (st'.cache_entries j))
        × ((j : ℕ) → j < i → st'.cache_entries j ≡ st.cache_entries j)
        × (st'.medium ≡ st.medium)
  unfolding invalidate_from
  invalidate_from_lem zero st i = (λ j h h'. absurd (omega arith), λ j h. refl, refl)
  invalidate_from_lem (suc left) st i =
      let e = st.cache_entries i in
      let st' = record st {
        cache_entries =
            set_entry st.cache_entries i
              (record e { sector = cache_free; last_access = 0; count = 0; dirty = false });
      } in
      let (now_free, before, same) = invalidate_from_lem left st' (i + 1) in
      (
        λ j h h'. elim (ℕ_discrete j i) [
          | yes e ↦
              let t : (j == i) ≡ true = ground arith in
              rw (before j (omega arith), t) (record { unused = refl; empty = refl; clean = refl })
          | no ne ↦ now_free j (omega arith) (omega arith)
        ],
        λ j h. let t : (j == i) ≡ false = ground arith in rw (before j (omega arith), t) refl,
        same,
      )

  -- On a medium without faults `_FAT_cache_invalidate` leaves every page free and does not change
  -- the sectors that the cache stands for.
  pub invalidate-Refines :
      (st : CacheState disc)
      → IsHealthy disc end_of_partition
      → Stands st
      → let st' = invalidate disc config st in
        Stands st' × ((i : ℕ) → i < number_of_pages → IsFree (st'.cache_entries i))
  unfolding invalidate flush
  invalidate-Refines st healthy r =
      let (now_free, before, same) =
        invalidate_from_lem number_of_pages (flush disc config st).1 0 in
      let kept = flush_from-Refines config contract sectors number_of_pages st 0 (omega arith) r in
      let clean =
        flush_from-clean config contract sectors number_of_pages st 0 (omega arith)
          (λ j h. absurd (omega arith)) (flush-succeeds config contract sectors st healthy r) in
      let free = λ (i : ℕ) (lt : i < number_of_pages). now_free i (omega arith) (omega arith) in
      (
        record {
          shape = λ i lt. inl (free i lt);
          cached = λ i s o lt c b. absurd (omega (arith, (free i lt).empty));
          stored = λ s o h b c. rw same (kept.stored s o h b (λ i lt c'. clean i lt));
          alone = λ i j s h h' c c'. absurd (omega (arith, (free i h).empty));
        },
        free,
      )
