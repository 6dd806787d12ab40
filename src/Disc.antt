-- ===== src/Disc.antt =====
-- source/disc.h and the DISC_INTERFACE of source/common.h: the driver of a medium is a record of
-- functions that the library is handed. What it relies on is the two records of laws below.
pub mod Ram
use libfat.Base.{ℕ, ◌+◌, ◌*◌, ◌≤◌, ◌<◌, ◌≡◌, ◌⊎◌, Bool, true, Buffer, bit_and, not, ◌==◌}

-- A transfer returns the flag of the C function and what it changed.
pub record DiscInterface : Type 1 where
  pub Medium : Type 0
  pub features : ℕ
  pub read_sectors :
      Medium → ℕ → ℕ → Buffer → record { ok : Bool; buffer : Buffer; medium : Medium }
  pub write_sectors : Medium → ℕ → ℕ → Buffer → record { ok : Bool; medium : Medium }

abbrev pub feature_medium_canwrite : ℕ
feature_medium_canwrite = 2

-- `true` where the medium can be written.
pub can_write : DiscInterface → Bool
can_write disc = not (bit_and disc.features feature_medium_canwrite == 0)

-- What a driver promises: a transfer that reports success moved the bytes, and no transfer
-- touches a sector that it was not asked for. A failed read may leave anything in the buffer, a
-- failed write anything in the sectors it was to write.
pub record Contract (disc : DiscInterface) (bytes_per_sector : ℕ) : Type 0 where
  pub content : disc.Medium → ℕ → ℕ → ℕ
  pub read_ok :
      (m : disc.Medium) (sector n : ℕ) (b : Buffer) (k o : ℕ)
      → (disc.read_sectors m sector n b).ok ≡ true
      → k < n
      → o < bytes_per_sector
      → (disc.read_sectors m sector n b).buffer (k * bytes_per_sector + o)
        ≡ content m (sector + k) o
  pub read_keeps :
      (m : disc.Medium) (sector n : ℕ) (b : Buffer) (s o : ℕ)
      → content (disc.read_sectors m sector n b).medium s o ≡ content m s o
  pub write_ok :
      (m : disc.Medium) (sector n : ℕ) (b : Buffer) (k o : ℕ)
      → (disc.write_sectors m sector n b).ok ≡ true
      → k < n
      → o < bytes_per_sector
      → content (disc.write_sectors m sector n b).medium (sector + k) o
        ≡ b (k * bytes_per_sector + o)
  pub write_keeps :
      (m : disc.Medium) (sector n : ℕ) (b : Buffer) (s o : ℕ)
      → (s < sector) ⊎ (sector + n ≤ s)
      → content (disc.write_sectors m sector n b).medium s o ≡ content m s o

-- A medium without faults: every transfer inside its first `size` sectors succeeds.
pub record IsHealthy (disc : DiscInterface) (size : ℕ) : Type 0 where
  pub reads :
      (m : disc.Medium) (sector n : ℕ) (b : Buffer)
      → sector + n ≤ size
      → (disc.read_sectors m sector n b).ok ≡ true
  pub writes :
      (m : disc.Medium) (sector n : ℕ) (b : Buffer)
      → sector + n ≤ size
      → (disc.write_sectors m sector n b).ok ≡ true
