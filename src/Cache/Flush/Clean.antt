-- ===== src/Cache/Flush/Clean.antt =====
-- A flush that succeeds leaves on the medium what the cache stands for.
use libfat.Base.{
  ℕ, zero, suc, ◌+◌, ◌-◌, ◌≤◌, ◌<◌, ◌≡◌, ◌⊎◌, inl, inr, true, false, arith, Bool-cases, refl,
}
use libfat.Disc.{DiscInterface, Contract, IsHealthy}
use native.Mathlib.Decide.{ℕ_discrete}
use libfat.Cache.State.{CacheConfig, CacheState}
use libfat.Cache.Invariant.{Sectors, Covers, Covers-cases, Refines}
use libfat.Cache.Flush.{flush_page, flush_from, flush}

module _ {disc : DiscInterface} (config : CacheConfig)
    (contract : Contract disc config.bytes_per_sector) (sectors : Sectors) where
  open config use {number_of_pages, bytes_per_sector, end_of_partition}

  abbrev Stands : CacheState disc → Type 0
  Stands st = Refines config contract st sectors

  flush_page_stored :
      (st : CacheState disc) (used : ℕ)
      → used < number_of_pages
      → Stands st
      → (s o : ℕ) → s < end_of_partition
      → o < bytes_per_sector
      → ((i : ℕ)
          → i < number_of_pages
          → Covers ((flush_page disc config st used).1.cache_entries i) s
          → ((flush_page disc config st used).1.cache_entries i).dirty ≡ false)
      → contract.content (flush_page disc config st used).1.medium s o ≡ sectors s o
  unfolding flush_page
  flush_page_stored st used lt r s o h b clean =
      let e = st.cache_entries used in
      elim (Bool-cases e.dirty) [
        | inl writes ↦ elim (Covers-cases e s) [
          | inl c ↦
              let back : e.sector + (s - e.sector) ≡ s = omega arith in
              ground (
                arith,
                back,
                clean used lt,
                r.cached used s o,
                contract.write_ok st.medium e.sector e.count e.cache (s - e.sector) o,
              )
          | inr out ↦ ground (
            arith,
            contract.write_keeps st.medium e.sector e.count e.cache s o,
            r.stored s o h b (λ i hi ci. ground (arith, clean i hi)),
          )
        ]
        | inr kept ↦ ground (arith, r.stored s o h b (λ i hi ci. ground (arith, clean i hi)))
      ]

  flush_page-Refines :
      (st : CacheState disc) (i : ℕ)
      → i < number_of_pages
      → Stands st
      → Stands (flush_page disc config st i).1
  unfolding flush_page
  flush_page-Refines st i lt r = record {
    shape = λ j h. ground (arith, r.shape j);
    cached = λ j s o h c b. ground (arith, r.cached j s o);
    stored = flush_page_stored st i lt r;
    alone = λ j k s h h' c c'. ground (arith, r.alone j k s);
  }

  -- After a successful step the page is clean, and a clean page stays so.
  flush_page-clean :
      (st : CacheState disc) (i : ℕ)
      → (flush_page disc config st i).0 ≡ true
      → ((j : ℕ) → j < i → (st.cache_entries j).dirty ≡ false)
      → (j : ℕ) → j < i + 1
      → ((flush_page disc config st i).1.cache_entries j).dirty ≡ false
  unfolding flush_page
  flush_page-clean st i ok clean j h = elim (ℕ_discrete j i) [
    | yes e ↦ ground arith
    | no ne ↦ ground (arith, clean j)
  ]

  pub flush_from-Refines :
      (left : ℕ) (st : CacheState disc) (i : ℕ)
      → i + left ≡ number_of_pages
      → Stands st
      → Stands (flush_from disc config left st i).1
  unfolding flush_from
  flush_from-Refines zero st i h r = r
  flush_from-Refines (suc left) st i h r =
      let r' = flush_page-Refines st i (omega arith) r in
      elim (Bool-cases (flush_page disc config st i).0) [
        | inl ok ↦ rw ok (flush_from-Refines left _ (i + 1) (omega arith) r')
        | inr failed ↦ rw failed r'
      ]

  pub flush_from-clean :
      (left : ℕ) (st : CacheState disc) (i : ℕ)
      → i + left ≡ number_of_pages
      → ((j : ℕ) → j < i → (st.cache_entries j).dirty ≡ false)
      → (flush_from disc config left st i).0 ≡ true
      → (j : ℕ) → j < number_of_pages
      → ((flush_from disc config left st i).1.cache_entries j).dirty ≡ false
  unfolding flush_from
  flush_from-clean zero st i h clean = λ done j lt. clean j (omega arith)
  flush_from-clean (suc left) st i h clean = elim (Bool-cases (flush_page disc config st i).0) [
    | inl ok ↦
        rw ok (flush_from-clean left _ (i + 1) (omega arith) (flush_page-clean st i ok clean))
    | inr failed ↦ rw failed (λ done j lt. absurd cc)
  ]

  -- `_FAT_cache_flush` does not change the sectors that the cache stands for, whether the driver
  -- fails or not; and either it returns false, or no page is dirty and the medium holds those
  -- sectors.
  pub flush-Refines :
      (st : CacheState disc)
      → Stands st
      → let r = flush disc config st in
        Stands r.1
        × ((r.0 ≡ false)
            ⊎ ((r.0 ≡ true)
                × ((i : ℕ) → i < number_of_pages → (r.1.cache_entries i).dirty ≡ false)
                × ((s o : ℕ)
                    → s < end_of_partition
                    → o < bytes_per_sector
                    → contract.content r.1.medium s o ≡ sectors s o)))
  unfolding flush
  flush-Refines st r =
      let kept = flush_from-Refines number_of_pages st 0 (omega arith) r in
      let clean =
        flush_from-clean number_of_pages st 0 (omega arith) (λ j h. absurd (omega arith)) in
      (
        kept,
        elim (Bool-cases (flush_from disc config number_of_pages st 0).0) [
          | inl ok ↦ inr (ok, clean ok, λ s o h b. kept.stored s o h b (λ i lt c. clean ok i lt))
          | inr failed ↦ inl failed
        ],
      )

  flush_page-succeeds :
      (st : CacheState disc) (i : ℕ)
      → IsHealthy disc end_of_partition
      → i < number_of_pages
      → Stands st
      → (flush_page disc config st i).0 ≡ true
  unfolding flush_page
  flush_page-succeeds st i healthy lt r = elim (r.shape i lt) [
    | inl free ↦ ground (arith, free.clean)
    | inr held ↦
        let e = st.cache_entries i in
        let fits : e.sector + e.count ≤ end_of_partition =
          ground (arith, held.whole, held.inside) in
        ground (arith, healthy.writes st.medium e.sector e.count e.cache fits)
  ]

  flush_from-succeeds :
      (left : ℕ) (st : CacheState disc) (i : ℕ)
      → IsHealthy disc end_of_partition
      → i + left ≡ number_of_pages
      → Stands st
      → (flush_from disc config left st i).0 ≡ true
  unfolding flush_from
  flush_from-succeeds zero st i healthy h r = refl
  flush_from-succeeds (suc left) st i healthy h r =
      rw (flush_page-succeeds st i healthy (omega arith) r) (
        flush_from-succeeds left _ (i + 1) healthy (omega arith)
          (flush_page-Refines st i (omega arith) r))

  -- On a medium without faults `_FAT_cache_flush` returns true.
  pub flush-succeeds :
      (st : CacheState disc)
      → IsHealthy disc end_of_partition
      → Stands st
      → (flush disc config st).0 ≡ true
  unfolding flush
  flush-succeeds st healthy r = flush_from-succeeds number_of_pages st 0 healthy (omega arith) r
