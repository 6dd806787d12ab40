-- ===== src/Cache/Sector.antt =====
-- The transfers of source/cache.c: parts of a sector, little-endian values, runs of sectors.
pub mod Update
pub mod Partial
pub mod Values
use libfat.Base.{
  ℕ, zero, suc, ◌+◌, ◌-◌, ◌*◌, Bool, true, false, Option, none, some, Buffer, memcpy, memset, u32,
  sub32, ltb, ◌==◌, if◌then◌else◌,
}
use libfat.BitOps.{u8array_to_u16, u8array_to_u32, u16_to_u8array, u32_to_u8array, store}
use libfat.Disc.{DiscInterface}
use libfat.Cache.State.{CacheConfig, CacheEntry, CacheState, set_entry}
use libfat.Cache.Page.{get_page}

module _ (disc : DiscInterface) (config : CacheConfig) where
  open config use {bytes_per_sector}

  -- What a read returns: the C function's flag, the caller's buffer, and the state.
  abbrev pub Read : Type 0
  Read = record { ok : Bool; buffer : Buffer; state : CacheState disc }

  abbrev pub Write : Type 0
  Write = record { ok : Bool; state : CacheState disc }

  -- entry->cache + ((sec * cache->bytesPerSector) + offset), as an offset in the page
  abbrev pub page_offset : CacheEntry → ℕ → ℕ → ℕ
  page_offset e sector offset = sub32 sector e.sector * bytes_per_sector + offset

  -- Change the bytes of page `i` and mark it.
  abbrev pub modify : CacheState disc → ℕ → Buffer → CacheState disc
  modify st i bytes = record st {
    cache_entries =
        set_entry st.cache_entries i (record (st.cache_entries i) { cache = bytes; dirty = true });
  }

  copy_out : Option ℕ × CacheState disc → Buffer → ℕ → ℕ → ℕ → Read
  copy_out (none, st) buffer sector offset size = record { ok = false; buffer = buffer; state = st }
  copy_out (some i, st) buffer sector offset size =
      let e = st.cache_entries i in
      record {
        ok = true;
        buffer = memcpy buffer 0 e.cache (page_offset e sector offset) size;
        state = st;
      }

  pub read_partial_sector : CacheState disc → Buffer → ℕ → ℕ → ℕ → Read
  unfolding copy_out
  read_partial_sector st buffer sector offset size =
      if ltb bytes_per_sector (u32 (offset + size))
      then record { ok = false; buffer = buffer; state = st }
      else copy_out (get_page disc config st sector) buffer sector offset size

  copy_in : Option ℕ × CacheState disc → Buffer → ℕ → ℕ → ℕ → Write
  copy_in (none, st) buffer sector offset size = record { ok = false; state = st }
  copy_in (some i, st) buffer sector offset size =
      let e = st.cache_entries i in
      record {
        ok = true;
        state = modify st i (memcpy e.cache (page_offset e sector offset) buffer 0 size);
      }

  pub write_partial_sector : CacheState disc → Buffer → ℕ → ℕ → ℕ → Write
  unfolding copy_in
  write_partial_sector st buffer sector offset size =
      if ltb bytes_per_sector (u32 (offset + size))
      then record { ok = false; state = st }
      else copy_in (get_page disc config st sector) buffer sector offset size

  erase_in : Option ℕ × CacheState disc → Buffer → ℕ → ℕ → ℕ → Write
  erase_in (none, st) buffer sector offset size = record { ok = false; state = st }
  erase_in (some i, st) buffer sector offset size =
      let e = st.cache_entries i in
      let erased = memset e.cache (page_offset e sector 0) 0 bytes_per_sector in
      record {
        ok = true;
        state = modify st i (memcpy erased (page_offset e sector offset) buffer 0 size);
      }

  pub erase_write_partial_sector : CacheState disc → Buffer → ℕ → ℕ → ℕ → Write
  unfolding erase_in
  erase_write_partial_sector st buffer sector offset size =
      if ltb bytes_per_sector (u32 (offset + size))
      then record { ok = false; state = st }
      else erase_in (get_page disc config st sector) buffer sector offset size

  pub read_sector : CacheState disc → Buffer → ℕ → Read
  read_sector st buffer sector = read_partial_sector st buffer sector 0 bytes_per_sector

  pub write_sector : CacheState disc → Buffer → ℕ → Write
  write_sector st buffer sector = write_partial_sector st buffer sector 0 bytes_per_sector

  -- A read of a value returns the flag, the caller's variable and the state.
  abbrev pub ReadValue : Type 0
  ReadValue = record { ok : Bool; value : ℕ; state : CacheState disc }

  -- The switch over the number of bytes, once they are in `buf`.
  decode : Read → ℕ → ℕ → ReadValue
  decode r value num_bytes =
      if r.ok
      then (if num_bytes == 1
          then record { ok = true; value = r.buffer 0; state = r.state }
          else if num_bytes == 2
          then record { ok = true; value = u8array_to_u16 r.buffer 0; state = r.state }
          else if num_bytes == 4
          then record { ok = true; value = u8array_to_u32 r.buffer 0; state = r.state }
          else record { ok = false; value = value; state = r.state })
      else record { ok = false; value = value; state = r.state }

  -- The local array `buf` has no contents before the read.
  pub read_little_endian_value : CacheState disc → ℕ → ℕ → ℕ → ℕ → ReadValue
  unfolding decode
  read_little_endian_value st value sector offset num_bytes =
      decode (read_partial_sector st (λ _. 0) sector offset num_bytes) value num_bytes

  -- The bytes of `buf` for a size that the switch knows.
  encode : ℕ → ℕ → Option Buffer
  encode value size =
      let buf : Buffer = λ _. 0 in
      if size == 1
      then some (store buf 0 value)
      else if size == 2
      then some (u16_to_u8array buf 0 value)
      else if size == 4
      then some (u32_to_u8array buf 0 value)
      else none

  pub write_little_endian_value : CacheState disc → ℕ → ℕ → ℕ → ℕ → Write
  unfolding encode
  write_little_endian_value st value sector offset size = elim (encode value size) [
    | none ↦ record { ok = false; state = st }
    | some buf ↦ write_partial_sector st buf sector offset size
  ]
