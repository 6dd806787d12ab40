-- ===== src/Store.antt =====
-- What the file system uses of source/cache.c: the operations on `partition->cache`, and the laws
-- that they keep. Store.Cached fills both from the cache.
pub mod Cached
use libfat.Base.{ℕ, ◌+◌, ◌*◌, ◌≤◌, ◌<◌, ◌≡◌, Bool, true, Buffer}
use libfat.Cache.Invariant.{Sectors}
use libfat.Cache.Sector.Partial.{put_bytes, erase}
use libfat.Cache.Sector.Values.{IsByteSectors, IsWidth, le_value, put_value}
use libfat.Cache.Run.Writing.{put_run}

pub record SectorStore : Type 1 where
  pub State : Type 0
  pub read_little_endian_value :
      State → ℕ → ℕ → ℕ → ℕ → record { ok : Bool; value : ℕ; state : State }
  pub write_little_endian_value : State → ℕ → ℕ → ℕ → ℕ → record { ok : Bool; state : State }
  pub read_partial_sector :
      State → Buffer → ℕ → ℕ → ℕ → record { ok : Bool; buffer : Buffer; state : State }
  pub write_partial_sector : State → Buffer → ℕ → ℕ → ℕ → record { ok : Bool; state : State }
  pub write_sectors : State → ℕ → ℕ → Buffer → record { ok : Bool; state : State }
  pub erase_write_partial_sector : State → Buffer → ℕ → ℕ → ℕ → record { ok : Bool; state : State }
  pub read_sectors : State → ℕ → ℕ → Buffer → record { ok : Bool; buffer : Buffer; state : State }
  pub flush : State → Bool × State

-- `Holds st sectors`: the store in state `st` stands for the array `sectors`, of `size` sectors of
-- `bytes_per_sector` bytes. Every operation in range succeeds and acts on the array.
pub record IsStore (store : SectorStore) (size bytes_per_sector : ℕ) : Type 1 where
  pub Holds : store.State → Sectors → Type 0
  -- The sectors are on the medium itself.
  pub OnMedium : store.State → Sectors → Type 0
  pub bytes : (st : store.State) (sectors : Sectors) → Holds st sectors → IsByteSectors sectors
  pub reads_value :
      (st : store.State) (sectors : Sectors) (v sector offset n : ℕ)
      → Holds st sectors
      → sector < size
      → offset + n ≤ bytes_per_sector
      → IsWidth n
      → let r = store.read_little_endian_value st v sector offset n in
        (r.ok ≡ true) × (r.value ≡ le_value sectors sector offset n) × Holds r.state sectors
  pub writes_value :
      (st : store.State) (sectors : Sectors) (v sector offset n : ℕ)
      → Holds st sectors
      → sector < size
      → offset + n ≤ bytes_per_sector
      → IsWidth n
      → let r = store.write_little_endian_value st v sector offset n in
        (r.ok ≡ true) × Holds r.state (put_value sectors sector offset n v)
  pub reads_part :
      (st : store.State) (sectors : Sectors) (b : Buffer) (sector offset n : ℕ)
      → Holds st sectors
      → sector < size
      → offset + n ≤ bytes_per_sector
      → let r = store.read_partial_sector st b sector offset n in
        (r.ok ≡ true)
        × ((k : ℕ) → k < n → r.buffer k ≡ sectors sector (offset + k))
        × Holds r.state sectors
  pub writes_part :
      (st : store.State) (sectors : Sectors) (b : Buffer) (sector offset n : ℕ)
      → Holds st sectors
      → ((k : ℕ) → k < n → b k < 256)
      → sector < size
      → offset + n ≤ bytes_per_sector
      → let r = store.write_partial_sector st b sector offset n in
        (r.ok ≡ true) × Holds r.state (put_bytes sectors sector offset n b)
  pub writes_sectors :
      (st : store.State) (sectors : Sectors) (b : Buffer) (sector n : ℕ)
      → Holds st sectors
      → ((k : ℕ) → b k < 256)
      → sector + n ≤ size
      → let r = store.write_sectors st sector n b in
        (r.ok ≡ true) × Holds r.state (put_run bytes_per_sector sectors sector n b 0)
  pub erases_part :
      (st : store.State) (sectors : Sectors) (b : Buffer) (sector offset n : ℕ)
      → Holds st sectors
      → ((k : ℕ) → k < n → b k < 256)
      → sector < size
      → offset + n ≤ bytes_per_sector
      → let r = store.erase_write_partial_sector st b sector offset n in
        (r.ok ≡ true) × Holds r.state (put_bytes (erase sectors sector) sector offset n b)
  pub reads_sectors :
      (st : store.State) (sectors : Sectors) (b : Buffer) (sector n : ℕ)
      → Holds st sectors
      → sector + n ≤ size
      → let r = store.read_sectors st sector n b in
        (r.ok ≡ true)
        × ((k o : ℕ)
            → k < n
            → o < bytes_per_sector
            → r.buffer (k * bytes_per_sector + o) ≡ sectors (sector + k) o)
        × Holds r.state sectors
  pub flushes :
      (st : store.State) (sectors : Sectors)
      → Holds st sectors
      → let r = store.flush st in (r.0 ≡ true) × Holds r.1 sectors × OnMedium r.1 sectors
