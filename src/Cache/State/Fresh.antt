-- ===== src/Cache/State/Fresh.antt =====
-- The cache as `_FAT_cache_constructor` returns it.
use libfat.Base.{ℕ, ◌+◌, ◌^◌, ◌<◌, ◌≤◌, ◌≡◌, ◌⊎◌, inl, arith, refl, Buffer}
use libfat.Disc.{DiscInterface, Contract}
use libfat.Cache.State.{CacheConfig, constructor_config, constructor_state, fresh_entries}
use libfat.Cache.Invariant.{IsSound, Refines}

-- `_FAT_cache_constructor` makes pages of at least eight sectors and at least two of them, at least
-- what it is asked for and no more than the least that it may be: and where the end of the partition,
-- the pages' size that is asked for and 8 add up to less than 2 ^ 32, the configuration is sound, that
-- is, the number of the sector behind a page does not wrap.
pub constructor_config-IsSound :
    (pages per_page last bytes : ℕ)
    → 0 < bytes
    → last + per_page + 8 < 2 ^ 32
    → let c = constructor_config pages per_page last bytes in
      IsSound c
      × (8 ≤ c.sectors_per_page)
      × (2 ≤ c.number_of_pages)
      × (per_page ≤ c.sectors_per_page)
      × (pages ≤ c.number_of_pages)
      × ((c.sectors_per_page ≡ per_page) ⊎ (c.sectors_per_page ≡ 8))
      × ((c.number_of_pages ≡ pages) ⊎ (c.number_of_pages ≡ 2))
unfolding constructor_config
constructor_config-IsSound pages per_page last bytes some_bytes h = (
  record {
    some_pages = ground arith;
    some_sectors = ground arith;
    some_bytes = some_bytes;
    no_wrap = ground arith;
  },
  ground arith,
  ground arith,
  ground arith,
  ground arith,
  ground arith,
  ground arith,
)

-- A new cache stands for what the medium holds, whatever the pages' memory was.
pub constructor_state-Refines :
    {disc : DiscInterface} (config : CacheConfig) (contract : Contract disc config.bytes_per_sector)
    (buffers : ℕ → Buffer) (medium : disc.Medium) (counter : ℕ)
    → Refines config contract (constructor_state buffers medium counter) (contract.content medium)
unfolding constructor_state fresh_entries
constructor_state-Refines config contract buffers medium counter = record {
  shape = λ i h. inl (record { unused = refl; empty = refl; clean = refl });
  cached = λ i s o h c b. absurd (omega arith);
  stored = λ s o h b clean. refl;
  alone = λ i j s h h' c c'. absurd (omega arith);
}
