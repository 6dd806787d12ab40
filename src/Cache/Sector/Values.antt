-- ===== src/Cache/Sector/Values.antt =====
-- `_FAT_cache_readLittleEndianValue` and `_FAT_cache_writeLittleEndianValue` on the sectors that the
-- cache stands for.
use libfat.Base.{
  ℕ, ◌+◌, ◌-◌, ◌*◌, ◌/◌, ◌%◌, ◌≤◌, ◌<◌, ◌≡◌, ◌⊎◌, inl, inr, true, arith, ◌==◌, if◌then◌else◌, some,
  sym, refl, Buffer,
}
use mathlib.Core.Path.{fun_ext}
use libfat.BitOps.{u16_to_u8array, u32_to_u8array, store}
use libfat.BitOps.RoundTrip.{u8array_to_u16_sum, u8array_to_u32_sum}
use libfat.Disc.{DiscInterface, Contract, IsHealthy}
use libfat.Cache.State.{CacheConfig, CacheState}
use libfat.Cache.Invariant.{Sectors, IsSound, Refines}
use libfat.Cache.Sector.{
  Read, decode, encode, read_partial_sector, read_little_endian_value, write_little_endian_value,
}
use libfat.Cache.Sector.Partial.{
  put_bytes, read_partial_sector-Refines, write_partial_sector-Refines,
}

-- Every element of a sector is a byte.
abbrev pub IsByteSectors : Sectors → Type 0
IsByteSectors sectors = (s o : ℕ) → sectors s o < 256

-- The sizes that the code asks for.
abbrev pub IsWidth : ℕ → Type 0
IsWidth n = (n ≡ 1) ⊎ ((n ≡ 2) ⊎ (n ≡ 4))

-- The value of the `n` bytes from an offset on, low byte first.
abbrev pub le_value : Sectors → ℕ → ℕ → ℕ → ℕ
le_value sectors s o n =
    if n == 1
    then sectors s o
    else if n == 2
    then sectors s o + sectors s (o + 1) * 256
    else sectors s o
      + sectors s (o + 1) * 256
      + sectors s (o + 2) * 65536
      + sectors s (o + 3) * 16777216

-- Byte `k` of a 32-bit value.
abbrev pub byte_of : ℕ → ℕ → ℕ
byte_of v k =
    if k == 0
    then v % 256
    else if k == 1
    then v / 256 % 256
    else if k == 2
    then v / 65536 % 256
    else v / 16777216 % 256

abbrev pub put_value : Sectors → ℕ → ℕ → ℕ → ℕ → Sectors
put_value sectors sector offset n v = put_bytes sectors sector offset n (byte_of v)

pub put_value-IsByteSectors :
    (sectors : Sectors) (sector offset n v : ℕ)
    → IsByteSectors sectors
    → IsByteSectors (put_value sectors sector offset n v)
put_value-IsByteSectors sectors sector offset n v h s o = ground (arith, h s o)

decode-Read :
    {disc : DiscInterface} (config : CacheConfig) (sectors : Sectors) (sector offset n v : ℕ)
    (r : Read disc config)
    → IsWidth n
    → IsByteSectors sectors
    → r.ok ≡ true
    → ((k : ℕ) → k < n → r.buffer k ≡ sectors sector (offset + k))
    → (decode disc config r v n).ok ≡ true
      × ((decode disc config r v n).value ≡ le_value sectors sector offset n)
      × ((decode disc config r v n).state ≡ r.state)
unfolding decode
decode-Read config sectors sector offset n v r (inl e) bytes ok b =
    ground (arith, b 0, bytes sector offset)
decode-Read config sectors sector offset n v r (inr (inl e)) bytes ok b =
    ground (
      arith,
      b 0,
      b 1,
      bytes sector offset,
      bytes sector (offset + 1),
      u8array_to_u16_sum r.buffer 0,
    )
decode-Read config sectors sector offset n v r (inr (inr e)) bytes ok b = ground (
  arith,
  b 0,
  b 1,
  b 2,
  b 3,
  bytes sector offset,
  bytes sector (offset + 1),
  bytes sector (offset + 2),
  bytes sector (offset + 3),
  u8array_to_u32_sum r.buffer 0,
)

-- The bytes that `encode` gives for a size that it knows.
encode-byte_of :
    (disc : DiscInterface) (config : CacheConfig) (v n : ℕ)
    → IsWidth n
    → (b : Buffer) × (encode disc config v n ≡ some b) × ((k : ℕ) → k < n → b k ≡ byte_of v k)
unfolding encode u16_to_u8array u32_to_u8array
encode-byte_of disc config v n (inl e) = (store (λ _. 0) 0 v, rw e refl, λ k h. ground arith)
encode-byte_of disc config v n (inr (inl e)) =
    (u16_to_u8array (λ _. 0) 0 v, rw e refl, λ k h. ground arith)
encode-byte_of disc config v n (inr (inr e)) =
    (u32_to_u8array (λ _. 0) 0 v, rw e refl, λ k h. ground arith)

put_bytes-eq :
    (sectors : Sectors) (sector offset n : ℕ) (b c : Buffer)
    → ((k : ℕ) → k < n → b k ≡ c k)
    → put_bytes sectors sector offset n b ≡ put_bytes sectors sector offset n c
put_bytes-eq sectors sector offset n b c h =
    fun_ext λ s. fun_ext λ o. ground (arith, h (o - offset))

module _ {disc : DiscInterface} (config : CacheConfig) (sound : IsSound config)
    (contract : Contract disc config.bytes_per_sector) (sectors : Sectors) (sector offset n : ℕ)
    (inside : sector < config.end_of_partition) (fits : offset + n ≤ config.bytes_per_sector)
    (width : IsWidth n) (st : CacheState disc) (healthy : IsHealthy disc config.end_of_partition)
    (r : Refines config contract st sectors) where
  -- On a medium without faults reading a value of one, two or four bytes inside a sector of the
  -- partition succeeds, and returns the bytes there as a little-endian number.
  pub read_little_endian_value-Refines :
      (v : ℕ)
      → IsByteSectors sectors
      → let r' = read_little_endian_value disc config st v sector offset n in
        (r'.ok ≡ true)
        × (r'.value ≡ le_value sectors sector offset n)
        × Refines config contract r'.state sectors
  unfolding read_little_endian_value
  read_little_endian_value-Refines v bytes =
      let (ok, b, r') =
        read_partial_sector-Refines config sound contract sectors sector offset n (λ _. 0) inside
          fits st healthy r in
      let (ok', value, same) =
        decode-Read config sectors sector offset n v
          (read_partial_sector disc config st (λ _. 0) sector offset n) width bytes ok b in
      (ok', value, rw same r')

  -- On a medium without faults writing a value of one, two or four bytes inside a sector of the
  -- partition succeeds, and changes those bytes to the low ones of the value and nothing else.
  pub write_little_endian_value-Refines :
      (v : ℕ)
      → let r' = write_little_endian_value disc config st v sector offset n in
        (r'.ok ≡ true) × Refines config contract r'.state (put_value sectors sector offset n v)
  unfolding write_little_endian_value
  write_little_endian_value-Refines v =
      let (b, e, same) = encode-byte_of disc config v n width in
      let (ok, r') =
        write_partial_sector-Refines config sound contract sectors sector offset n b inside fits st
          healthy r in
      rw (e, write_little_endian_value)
        (ok, rw (sym (put_bytes-eq sectors sector offset n b (byte_of v) same)) r')
