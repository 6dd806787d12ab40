-- ===== src/Cache/Page/Fill.antt =====
-- The second half of `_FAT_cache_getPage`: reading the page of a sector that no page holds.
use libfat.Base.{ℕ, ◌+◌, ◌-◌, ◌*◌, ◌<◌, ◌≡◌, ◌≢◌, inr, true, false, arith, sub32, sym, ◌∙◌}
use mathlib.Core.Path.{subst}
use Prim.Native.Nat.{min}
use native.Mathlib.Decide.{ℕ_discrete}
use libfat.Disc.{DiscInterface, Contract}
use libfat.Cache.State.{CacheConfig, CacheState}
use libfat.Cache.Invariant.{Sectors, IsSound, Covers, Refines}
use libfat.Cache.Page.{page_base, page_end, fill}
use libfat.Cache.Page.Bounds.{page_bounds, page_base_aligned, same_page}

module _ {disc : DiscInterface} (config : CacheConfig) (sound : IsSound config)
    (contract : Contract disc config.bytes_per_sector) (sectors : Sectors) (st : CacheState disc)
    (used sector : ℕ) (lt : used < config.number_of_pages)
    (inside : sector < config.end_of_partition) (r : Refines config contract st sectors)
    (clean : (st.cache_entries used).dirty ≡ false)
    (absent : (j : ℕ) → j < config.number_of_pages → ¬ (Covers (st.cache_entries j) sector))
    (read : (fill disc config st used sector).0 ≡ true) where
  open config use {number_of_pages, bytes_per_sector, end_of_partition, sectors_per_page}

  abbrev base : ℕ
  base = page_base config sector

  abbrev filled : CacheState disc
  filled = (fill disc config st used sector).1

  filled_page :
      ((filled.cache_entries used).sector ≡ base)
      × ((filled.cache_entries used).count ≡ min sectors_per_page (end_of_partition - base))
      × ((filled.cache_entries used).dirty ≡ false)
  unfolding fill
  filled_page = ground (arith, page_bounds config sound sector inside, read)

  filled_other : (j : ℕ) → j ≢ used → filled.cache_entries j ≡ st.cache_entries j
  unfolding fill
  filled_other j ne = ground (arith, read)

  -- No page of before shares a sector with the new one.
  alone_before :
      (j s : ℕ)
      → j < number_of_pages
      → Covers (st.cache_entries j) s
      → Covers (filled.cache_entries used) s
      → ⊥
  alone_before j s h c c' = absent j h (
      same_page config sound (st.cache_entries j) sector s (r.shape j h) inside c
        (omega (arith, filled_page)) (omega (arith, filled_page)))

  filled-medium : (s o : ℕ) → contract.content filled.medium s o ≡ contract.content st.medium s o
  unfolding fill
  filled-medium s o = ground (
    arith,
    read,
    contract.read_keeps st.medium base (sub32 (page_end config sector) base)
        (st.cache_entries used).cache s o,
  )

  filled-cached :
      (s o : ℕ)
      → Covers (filled.cache_entries used) s
      → o < bytes_per_sector
      → (filled.cache_entries used).cache ((s - base) * bytes_per_sector + o) ≡ sectors s o
  unfolding fill
  filled-cached s o c b =
      let back : base + (s - base) ≡ s = omega (arith, filled_page) in
      ground (
        arith,
        read,
        back,
        filled_page,
        page_bounds config sound sector inside,
        contract.read_ok st.medium base (sub32 (page_end config sector) base)
            (st.cache_entries used).cache (s - base) o,
        r.stored s o (omega (arith, filled_page, page_bounds config sound sector inside)) b
            (λ j h c'. absurd (alone_before j s h c' c)),
      )

  filled-alone :
      (j k s : ℕ)
      → j < number_of_pages
      → k < number_of_pages
      → Covers (filled.cache_entries j) s
      → Covers (filled.cache_entries k) s
      → j ≡ k
  filled-alone j k s h h' c c' = elim (ℕ_discrete j used) [
    | yes e ↦ elim (ℕ_discrete k used) [
      | yes e' ↦ e ∙ sym e'
      | no ne ↦ absurd (
          alone_before k s h' (rw (filled_other k ne) at c')
            (subst (λ i. Covers (filled.cache_entries i) s) e c))
    ]
    | no ne ↦ elim (ℕ_discrete k used) [
      | yes e ↦ absurd (
          alone_before j s h (rw (filled_other j ne) at c)
            (subst (λ i. Covers (filled.cache_entries i) s) e c'))
      | no ne' ↦ r.alone j k s h h' (rw (filled_other j ne) at c) (rw (filled_other k ne') at c')
    ]
  ]

  pub fill-Refines :
      Refines config contract filled sectors × Covers (filled.cache_entries used) sector
  fill-Refines = (
    record {
      shape = λ j h. elim (ℕ_discrete j used) [
        | yes e ↦ rw e (
            inr (record {
              aligned = rw filled_page.0 (page_base_aligned config sound sector);
              inside = omega (arith, filled_page, page_bounds config sound sector inside);
              whole = rw (filled_page.0) filled_page.1;
            }))
        | no ne ↦ rw (filled_other j ne) (r.shape j h)
      ];
      cached = λ j s o h c b. elim (ℕ_discrete j used) [
        | yes e ↦
            rw (e, filled_page.0)
              (filled-cached s o (subst (λ i. Covers (filled.cache_entries i) s) e c) b)
        | no ne ↦ rw (filled_other j ne) (r.cached j s o h (rw (filled_other j ne) at c) b)
      ];
      stored = λ s o h b cl.
          filled-medium s o
          ∙ r.stored s o h b (λ j hj cj. elim (ℕ_discrete j used) [
            | yes e ↦ rw e clean
            | no ne ↦ rw (filled_other j ne) at (cl j hj (rw (filled_other j ne) cj))
          ]);
      alone = λ j k s h h' c c'. filled-alone j k s h h' c c';
    },
    omega (arith, filled_page, page_bounds config sound sector inside),
  )
