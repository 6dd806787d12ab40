-- ===== src/Cache/Run.antt =====
-- `_FAT_cache_readSectors` and `_FAT_cache_writeSectors` of source/cache.c: runs of whole sectors, a
-- page at a time. The loops take as many rounds as there are sectors; `none` is a loop that has
-- not ended by then, which the proofs below rule out.
mod Rows
pub mod Reading
pub mod Writing
use libfat.Base.{
  ℕ, zero, suc, ◌+◌, ◌-◌, ◌*◌, Bool, true, false, Option, none, some, Buffer, memcpy, u32, sub32,
  ltb, ◌==◌, if◌then◌else◌,
}
use libfat.Disc.{DiscInterface}
use libfat.Cache.State.{CacheConfig, CacheEntry, CacheState}
use libfat.Cache.Page.{get_page}
use libfat.Cache.Sector.{Read, Write, modify, page_offset}

module _ (disc : DiscInterface) (config : CacheConfig) where
  open config use {bytes_per_sector}

  -- secs_to_read and secs_to_write: what is left of the page, but no more than is asked for.
  abbrev pub run_length : CacheEntry → ℕ → ℕ → ℕ
  run_length e sector num_sectors =
      let left = sub32 e.count (sub32 sector e.sector) in
      if ltb num_sectors left then num_sectors else left

  -- `dest` is an offset in `buffer`.
  pub read_run : ℕ → CacheState disc → Buffer → ℕ → ℕ → ℕ → Option (Read disc config)
  read_run zero st buffer dest sector num =
      if num == 0 then some (record { ok = true; buffer = buffer; state = st }) else none
  read_run (suc fuel) st buffer dest sector num = elim (num == 0) [
    | true ↦ some (record { ok = true; buffer = buffer; state = st })
    | false ↦ elim (get_page disc config st sector).0 [
      | none ↦
          some (record { ok = false; buffer = buffer; state = (get_page disc config st sector).1 })
      | some i ↦
          let st' = (get_page disc config st sector).1 in
          let e = st'.cache_entries i in
          let n = run_length e sector num in
          read_run fuel st'
            (memcpy buffer dest e.cache (sub32 sector e.sector * bytes_per_sector)
              (n * bytes_per_sector))
            (dest + n * bytes_per_sector) (u32 (sector + n)) (num - n)
    ]
  ]

  pub read_sectors : CacheState disc → ℕ → ℕ → Buffer → Option (Read disc config)
  unfolding read_run
  read_sectors st sector num buffer = read_run num st buffer 0 sector num

  -- `src` is an offset in `buffer`.
  pub write_run : ℕ → CacheState disc → Buffer → ℕ → ℕ → ℕ → Option (Write disc config)
  write_run zero st buffer src sector num =
      if num == 0 then some (record { ok = true; state = st }) else none
  write_run (suc fuel) st buffer src sector num = elim (num == 0) [
    | true ↦ some (record { ok = true; state = st })
    | false ↦ elim (get_page disc config st sector).0 [
      | none ↦ some (record { ok = false; state = (get_page disc config st sector).1 })
      | some i ↦
          let st' = (get_page disc config st sector).1 in
          let e = st'.cache_entries i in
          let n = run_length e sector num in
          write_run fuel
            (modify disc config st' i (
              memcpy e.cache (sub32 sector e.sector * bytes_per_sector) buffer src
                (n * bytes_per_sector)))
            buffer (src + n * bytes_per_sector) (u32 (sector + n)) (num - n)
    ]
  ]

  pub write_sectors : CacheState disc → ℕ → ℕ → Buffer → Option (Write disc config)
  unfolding write_run
  write_sectors st sector num buffer = write_run num st buffer 0 sector num
