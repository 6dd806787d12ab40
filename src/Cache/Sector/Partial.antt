-- ===== src/Cache/Sector/Partial.antt =====
-- Reads and writes of a part of a sector go to the sectors that the cache stands for.
use libfat.Base.{
  ℕ, ◌+◌, ◌-◌, ◌≤◌, ◌<◌, ◌≡◌, true, false, ◌&&◌, arith, u32, ltb, leb, ◌==◌, if◌then◌else◌, Option,
  none, some, refl, Buffer, memset,
}
use libfat.Disc.{DiscInterface, Contract, IsHealthy}
use libfat.Cache.State.{CacheConfig, CacheState}
use libfat.Cache.Invariant.{Sectors, IsSound, Refines}
use libfat.Cache.Page.{get_page}
use libfat.Cache.Page.Refine.{Fetched, get_page-Fetched, get_page-some}
use libfat.Cache.Sector.{
  page_offset, copy_out, copy_in, erase_in, read_partial_sector, write_partial_sector,
  erase_write_partial_sector,
}
use libfat.Cache.Sector.Update.{page-memcpy, page-memset, modify-Refines}

-- The sectors after bytes `b[0 .. size)` went to `offset` of a sector, and after the sector was
-- zeroed first.
abbrev pub put_bytes : Sectors → ℕ → ℕ → ℕ → Buffer → Sectors
put_bytes sectors sector offset size b s o =
    if s == sector && (leb offset o && ltb o (offset + size)) then b (o - offset) else sectors s o

abbrev pub erase : Sectors → ℕ → Sectors
erase sectors sector s o = if s == sector then 0 else sectors s o

module _ {disc : DiscInterface} (config : CacheConfig) (sound : IsSound config)
    (contract : Contract disc config.bytes_per_sector) (sectors : Sectors) where
  open config use {number_of_pages, bytes_per_sector, end_of_partition, sectors_per_page}

  module _ (sector offset size : ℕ) (b : Buffer) (inside : sector < end_of_partition)
      (fits : offset + size ≤ bytes_per_sector) where
    copy_out-Refines :
        (p : Option ℕ × CacheState disc) (i : ℕ)
        → Fetched config sound contract sectors sector p
        → p.0 ≡ some i
        → let r = copy_out disc config p b sector offset size in
          (r.ok ≡ true)
          × ((k : ℕ) → k < size → r.buffer k ≡ sectors sector (offset + k))
          × Refines config contract r.state sectors
    unfolding copy_out
    copy_out-Refines (none, st) i f e = cc
    copy_out-Refines (some j, st) i (lt, c, r) e = (
      refl,
      (λ k h. ground (arith, sound.no_wrap, r.cached j sector (offset + k) lt c (omega arith))),
      r,
    )

    copy_in-Refines :
        (p : Option ℕ × CacheState disc) (i : ℕ)
        → Fetched config sound contract sectors sector p
        → p.0 ≡ some i
        → let r = copy_in disc config p b sector offset size in
          (r.ok ≡ true) × Refines config contract r.state (put_bytes sectors sector offset size b)
    unfolding copy_in
    copy_in-Refines (none, st) i f e = cc
    copy_in-Refines (some j, st) i (lt, c, r) e = (
      refl,
      modify-Refines config sound contract sectors (put_bytes sectors sector offset size b) st j _
          lt sector c r
          (λ s o c' h. ground (
            arith,
            sound.no_wrap,
            r.cached j s o lt c' h,
            page-memcpy bytes_per_sector (st.cache_entries j).sector sector s o offset size
                (omega arith) (omega (arith, sound.no_wrap)) (omega arith) h fits
                (st.cache_entries j).cache b 0,
          ))
          (λ s o nc. ground arith),
    )

    erase_in-Refines :
        (p : Option ℕ × CacheState disc) (i : ℕ)
        → Fetched config sound contract sectors sector p
        → p.0 ≡ some i
        → let r = erase_in disc config p b sector offset size in
          (r.ok ≡ true)
          × Refines config contract r.state (put_bytes (erase sectors sector) sector offset size b)
    unfolding erase_in
    erase_in-Refines (none, st) i f e = cc
    erase_in-Refines (some j, st) i (lt, c, r) e = (
      refl,
      modify-Refines config sound contract sectors
          (put_bytes (erase sectors sector) sector offset size b) st j _ lt sector c r
          (λ s o c' h.
            let e = st.cache_entries j in
            let erased = memset e.cache (page_offset disc config e sector 0) 0 bytes_per_sector in
            ground (
              arith,
              sound.no_wrap,
              r.cached j s o lt c' h,
              page-memset bytes_per_sector e.sector sector s o 0 bytes_per_sector (omega arith)
                  (omega (arith, sound.no_wrap)) (omega arith) h (omega arith) e.cache 0,
              page-memcpy bytes_per_sector e.sector sector s o offset size (omega arith)
                  (omega (arith, sound.no_wrap)) (omega arith) h fits erased b 0,
            ))
          (λ s o nc. ground arith),
    )

    module _ (st : CacheState disc) (healthy : IsHealthy disc end_of_partition)
        (r : Refines config contract st sectors) where
      small : ltb bytes_per_sector (u32 (offset + size)) ≡ false
      small = ground arith

      page : (i : ℕ) × ((get_page disc config st sector).0 ≡ some i)
      page = get_page-some config sound contract sectors st sector r inside healthy

      fetched : Fetched config sound contract sectors sector (get_page disc config st sector)
      fetched = get_page-Fetched config sound contract sectors st sector r inside

      -- On a medium without faults a read inside a sector of the partition succeeds, it returns the
      -- bytes of the sector, and the cache goes on to stand for the same sectors.
      pub read_partial_sector-Refines :
          let r' = read_partial_sector disc config st b sector offset size in
          (r'.ok ≡ true)
          × ((k : ℕ) → k < size → r'.buffer k ≡ sectors sector (offset + k))
          × Refines config contract r'.state sectors
      unfolding read_partial_sector
      read_partial_sector-Refines =
          rw small (copy_out-Refines (get_page disc config st sector) page.0 fetched page.1)

      -- On a medium without faults a write inside a sector of the partition succeeds, and the cache
      -- then stands for the sectors with those bytes changed and no others.
      pub write_partial_sector-Refines :
          let r' = write_partial_sector disc config st b sector offset size in
          (r'.ok ≡ true) × Refines config contract r'.state (put_bytes sectors sector offset size b)
      unfolding write_partial_sector
      write_partial_sector-Refines =
          rw small (copy_in-Refines (get_page disc config st sector) page.0 fetched page.1)

      -- On a medium without faults an erasing write inside a sector of the partition succeeds, and
      -- the cache then stands for the sectors with that sector zero but for the bytes written.
      pub erase_write_partial_sector-Refines :
          let r' = erase_write_partial_sector disc config st b sector offset size in
          (r'.ok ≡ true)
          × Refines config contract r'.state (put_bytes (erase sectors sector) sector offset size b)
      unfolding erase_write_partial_sector
      erase_write_partial_sector-Refines =
          rw small (erase_in-Refines (get_page disc config st sector) page.0 fetched page.1)
