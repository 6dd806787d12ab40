-- ===== src/Disc/Ram.antt =====
-- A driver of a medium in memory, which meets the promises of `Contract` and `IsHealthy`.
use libfat.Base.{
  ℕ, ◌+◌, ◌-◌, ◌*◌, ◌/◌, ◌%◌, ◌≤◌, ◌<◌, ◌≡◌, ◌⊎◌, true, ◌&&◌, Buffer, arith, refl, ltb, leb,
  if◌then◌else◌,
}
use libfat.Disc.{DiscInterface, Contract, IsHealthy}

-- Sectors of 512 bytes, by sector and by offset in it.
abbrev pub ram : DiscInterface
ram = record {
  Medium = ℕ → ℕ → ℕ;
  features = 3;
  read_sectors = λ m sector n b. record {
    ok = true;
    buffer = λ i. if ltb i (n * 512) then m (sector + i / 512) (i % 512) else b i;
    medium = m;
  };
  write_sectors = λ m sector n b. record {
    ok = true;
    medium =
        λ s o. if leb sector s && ltb s (sector + n) then b ((s - sector) * 512 + o) else m s o;
  };
}

read_in_range : (k n o : ℕ) → k < n → o < 512 → k * 512 + o < n * 512
read_in_range k n o h h' = omega arith

pub ram_read :
    (m : ℕ → ℕ → ℕ) (sector n : ℕ) (b : Buffer) (k o : ℕ)
    → k < n
    → o < 512
    → (if ltb (k * 512 + o) (n * 512)
        then m (sector + (k * 512 + o) / 512) ((k * 512 + o) % 512)
        else b (k * 512 + o))
      ≡ m (sector + k) o
ram_read m sector n b k o h h' =
    let e : (k * 512 + o) / 512 ≡ k = omega arith in
    let e' : (k * 512 + o) % 512 ≡ o = omega arith in
    rw (e, e') (ground (arith, read_in_range k n o))

pub ram_write :
    (m : ℕ → ℕ → ℕ) (sector n : ℕ) (b : Buffer) (k o : ℕ)
    → k < n
    → (if leb sector (sector + k) && ltb (sector + k) (sector + n)
        then b ((sector + k - sector) * 512 + o)
        else m (sector + k) o)
      ≡ b (k * 512 + o)
ram_write m sector n b k o h = let e : sector + k - sector ≡ k = omega arith in rw e (ground arith)

pub ram_kept :
    (m : ℕ → ℕ → ℕ) (sector n : ℕ) (b : Buffer) (s o : ℕ)
    → (s < sector) ⊎ (sector + n ≤ s)
    → (if leb sector s && ltb s (sector + n) then b ((s - sector) * 512 + o) else m s o) ≡ m s o
ram_kept m sector n b s o h = ground arith

abbrev pub ram_contract : Contract ram 512
ram_contract = record {
  content = λ m. m;
  read_ok = λ m sector n b k o _ h h'. ram_read m sector n b k o h h';
  read_keeps = λ m sector n b s o. refl;
  write_ok = λ m sector n b k o _ h _. ram_write m sector n b k o h;
  write_keeps = ram_kept;
}

pub ram-IsHealthy : (size : ℕ) → IsHealthy ram size
ram-IsHealthy size = record { reads = λ m s n b h. refl; writes = λ m s n b h. refl }
