-- ===== src/Store/Cached.antt =====
-- The page cache over a medium without faults is a store.
use libfat.Base.{
  ℕ, ◌+◌, ◌-◌, ◌*◌, ◌≤◌, ◌<◌, ◌≡◌, inl, inr, true, false, Option, none, some, Buffer, arith, refl,
}
use libfat.Disc.{DiscInterface, Contract, IsHealthy}
use libfat.Cache.State.{CacheConfig, CacheState}
use libfat.Cache.Invariant.{Sectors, IsSound, Refines}
use libfat.Cache.Sector
use libfat.Cache.Sector.Partial.{
  put_bytes, erase, read_partial_sector-Refines, write_partial_sector-Refines,
  erase_write_partial_sector-Refines,
}
use libfat.Cache.Sector.Values.{
  IsByteSectors, read_little_endian_value-Refines, write_little_endian_value-Refines,
  put_value-IsByteSectors,
}
use libfat.Cache.Run
use libfat.Cache.Run.Writing.{put_run, write_sectors-Refines}
use libfat.Cache.Run.Reading.{read_sectors-Refines}
use libfat.Cache.Flush.{flush}
use libfat.Cache.Flush.Clean.{flush-Refines, flush-succeeds}
use libfat.Store.{SectorStore, IsStore}

-- `_FAT_cache_writeSectors` where its loop ends, as `write_sectors-Refines` shows that it does.
abbrev pub ended :
    {disc : DiscInterface} (config : CacheConfig)
    → Option (Sector.Write disc config)
    → CacheState disc
    → Sector.Write disc config
ended config none st = record { ok = false; state = st }
ended config (some r) st = r

-- `_FAT_cache_readSectors` likewise, as `read_sectors-Refines` shows.
abbrev pub ended_read :
    {disc : DiscInterface} (config : CacheConfig)
    → Option (Sector.Read disc config)
    → Buffer
    → CacheState disc
    → Sector.Read disc config
ended_read config none b st = record { ok = false; buffer = b; state = st }
ended_read config (some r) b st = r

abbrev pub cache_store : DiscInterface → CacheConfig → SectorStore
cache_store disc config = record {
  State = CacheState disc;
  read_little_endian_value = Sector.read_little_endian_value disc config;
  write_little_endian_value = Sector.write_little_endian_value disc config;
  read_partial_sector = Sector.read_partial_sector disc config;
  write_partial_sector = Sector.write_partial_sector disc config;
  write_sectors = λ st sector n b. ended config (Run.write_sectors disc config st sector n b) st;
  erase_write_partial_sector = Sector.erase_write_partial_sector disc config;
  read_sectors =
      λ st sector n b. ended_read config (Run.read_sectors disc config st sector n b) b st;
  flush = flush disc config;
}

pub erased-IsByteSectors :
    (sectors : Sectors) (sector offset n : ℕ) (b : Buffer)
    → IsByteSectors sectors
    → ((k : ℕ) → k < n → b k < 256)
    → IsByteSectors (put_bytes (erase sectors sector) sector offset n b)
erased-IsByteSectors sectors sector offset n b h byte s o = ground (arith, h s o, byte (o - offset))

pub put_bytes-IsByteSectors :
    (sectors : Sectors) (sector offset n : ℕ) (b : Buffer)
    → IsByteSectors sectors
    → ((k : ℕ) → k < n → b k < 256)
    → IsByteSectors (put_bytes sectors sector offset n b)
put_bytes-IsByteSectors sectors sector offset n b h byte s o =
    ground (arith, h s o, byte (o - offset))

module _ {disc : DiscInterface} (config : CacheConfig) (sound : IsSound config)
    (contract : Contract disc config.bytes_per_sector)
    (healthy : IsHealthy disc config.end_of_partition) where
  open config use {bytes_per_sector, end_of_partition}

  abbrev pub Stands : CacheState disc → Sectors → Type 0
  Stands st sectors = Refines config contract st sectors × IsByteSectors sectors

  abbrev pub Stored : CacheState disc → Sectors → Type 0
  Stored st sectors =
      (s o : ℕ)
      → s < end_of_partition
      → o < bytes_per_sector
      → contract.content st.medium s o ≡ sectors s o

  pub flushes_all :
      (st : CacheState disc) (sectors : Sectors)
      → Refines config contract st sectors
      → let r = flush disc config st in
        (r.0 ≡ true) × Refines config contract r.1 sectors × Stored r.1 sectors
  flushes_all st sectors h =
      let ok = flush-succeeds config contract sectors st healthy h in
      let (kept, outcome) = flush-Refines config contract sectors st h in
      (ok, kept, elim outcome [ inl failed ↦ absurd cc | inr (_, _, stored) ↦ stored ])

  pub writes_run :
      (st : CacheState disc) (sectors : Sectors) (b : Buffer) (sector n : ℕ)
      → Stands st sectors
      → ((k : ℕ) → b k < 256)
      → sector + n ≤ end_of_partition
      → let r = ended config (Run.write_sectors disc config st sector n b) st in
        (r.ok ≡ true) × Stands r.state (put_run bytes_per_sector sectors sector n b 0)
  writes_run st sectors b sector n h byte fits =
      let (x, e, ok, r) =
        write_sectors-Refines config sound contract healthy sectors st b sector n fits h.0 in
      rw e
        (ok, (r, (λ s o. ground (arith, h.1 s o, byte (0 + (s - sector) * bytes_per_sector + o)))))

  pub reads_run :
      (st : CacheState disc) (sectors : Sectors) (b : Buffer) (sector n : ℕ)
      → Stands st sectors
      → sector + n ≤ end_of_partition
      → let r = ended_read config (Run.read_sectors disc config st sector n b) b st in
        (r.ok ≡ true)
        × ((k o : ℕ)
            → k < n
            → o < bytes_per_sector
            → r.buffer (k * bytes_per_sector + o) ≡ sectors (sector + k) o)
        × Stands r.state sectors
  reads_run st sectors b sector n h fits =
      let (x, e, ok, copied, r) =
        read_sectors-Refines config sound contract healthy sectors st b sector n fits h.0 in
      rw e (ok, copied, (r, h.1))

  -- The laws of a store, shown of the cache.
  abbrev pub cache_laws : IsStore (cache_store disc config) end_of_partition bytes_per_sector
  cache_laws = record {
    Holds = Stands;
    OnMedium = Stored;
    bytes = λ st sectors h. h.1;
    reads_value = λ st sectors v sector offset n h lt fits width.
        let (ok, value, r) =
          read_little_endian_value-Refines config sound contract sectors sector offset n lt fits
            width st healthy h.0 v h.1 in
        (ok, value, (r, h.1));
    writes_value = λ st sectors v sector offset n h lt fits width.
        let (ok, r) =
          write_little_endian_value-Refines config sound contract sectors sector offset n lt fits
            width st healthy h.0 v in
        (ok, (r, put_value-IsByteSectors sectors sector offset n v h.1));
    reads_part = λ st sectors b sector offset n h lt fits.
        let (ok, value, r) =
          read_partial_sector-Refines config sound contract sectors sector offset n b lt fits st
            healthy h.0 in
        (ok, value, (r, h.1));
    writes_part = λ st sectors b sector offset n h byte lt fits.
        let (ok, r) =
          write_partial_sector-Refines config sound contract sectors sector offset n b lt fits st
            healthy h.0 in
        (ok, (r, put_bytes-IsByteSectors sectors sector offset n b h.1 byte));
    writes_sectors = writes_run;
    erases_part = λ st sectors b sector offset n h byte lt fits.
        let (ok, r) =
          erase_write_partial_sector-Refines config sound contract sectors sector offset n b lt fits
            st healthy h.0 in
        (ok, (r, erased-IsByteSectors sectors sector offset n b h.1 byte));
    reads_sectors = reads_run;
    flushes =
        λ st sectors h. let (ok, r, stored) = flushes_all st sectors h.0 in (ok, (r, h.1), stored);
  }

  -- On a medium without faults the cache is a store of the sectors up to the end of the partition,
  -- where a state holds the sectors that its pages and the medium stand for together, and they are on the medium where it has
  -- their bytes, as it has after a flush.
  pub cache_store-IsStore :
      (laws : IsStore (cache_store disc config) end_of_partition bytes_per_sector) × (laws.Holds
        ≡ Stands)
      × (laws.OnMedium ≡ Stored)
  cache_store-IsStore = (cache_laws, refl, refl)
