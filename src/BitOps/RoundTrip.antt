-- ===== src/BitOps/RoundTrip.antt =====
-- source/bit_ops.h: what the readers return as a sum of bytes, and that they undo the writers.
use libfat.Base.{ℕ, ◌+◌, ◌*◌, ◌/◌, ◌%◌, ◌≤◌, ◌<◌, ◌≡◌, ◌⊎◌, arith, bit_or_low, Buffer, u16, u32}
use libfat.BitOps.{u8array_to_u16, u8array_to_u32, u16_to_u8array, u32_to_u8array}

-- Every element of a byte array is a byte.
abbrev pub IsBytes : Buffer → Type 0
IsBytes b = (i : ℕ) → b i < 256

pub u8array_to_u16_sum :
    (b : Buffer) (o : ℕ) → b o < 256 → b (o + 1) < 256 → u8array_to_u16 b o ≡ b o + b (o + 1) * 256
unfolding u8array_to_u16
u8array_to_u16_sum b o h0 h1 = omega (arith, bit_or_low 8 (b o) (b (o + 1)) h0)

pub u8array_to_u32_sum :
    (b : Buffer) (o : ℕ)
    → b o < 256
    → b (o + 1) < 256
    → b (o + 2) < 256
    → b (o + 3) < 256
    → u8array_to_u32 b o ≡ b o + b (o + 1) * 256 + b (o + 2) * 65536 + b (o + 3) * 16777216
unfolding u8array_to_u32
u8array_to_u32_sum b o h0 h1 h2 h3 = ground (
  arith,
  bit_or_low 8 (b o) (b (o + 1)),
  bit_or_low 16 (b o + b (o + 1) * 256) (b (o + 2)),
  bit_or_low 24 (b o + b (o + 1) * 256 + b (o + 2) * 65536) (b (o + 3)),
)

u16_bytes :
    (b : Buffer) (o v : ℕ)
    → (u16_to_u8array b o v o ≡ v % 256) × (u16_to_u8array b o v (o + 1) ≡ v / 256 % 256)
unfolding u16_to_u8array
u16_bytes b o v = ground arith

u32_bytes :
    (b : Buffer) (o v : ℕ)
    → (u32_to_u8array b o v o ≡ v % 256)
      × (u32_to_u8array b o v (o + 1) ≡ v / 256 % 256)
      × (u32_to_u8array b o v (o + 2) ≡ v / 65536 % 256)
      × (u32_to_u8array b o v (o + 3) ≡ v / 16777216 % 256)
unfolding u32_to_u8array
u32_bytes b o v = ground arith

-- Reading back what `u16_to_u8array` or `u32_to_u8array` wrote gives the low 16 or 32 bits of the value,
-- and the bytes outside the written range keep their value.
pub u8array-u8array :
    (b : Buffer) (o v : ℕ)
    → (u8array_to_u16 (u16_to_u8array b o v) o ≡ u16 v)
      × (u8array_to_u32 (u32_to_u8array b o v) o ≡ u32 v)
      × ((i : ℕ) → (i < o) ⊎ (o + 2 ≤ i) → u16_to_u8array b o v i ≡ b i)
      × ((i : ℕ) → (i < o) ⊎ (o + 4 ≤ i) → u32_to_u8array b o v i ≡ b i)
unfolding u16_to_u8array u32_to_u8array
u8array-u8array b o v = (
  ground (arith, u16_bytes b o v, u8array_to_u16_sum (u16_to_u8array b o v) o),
  ground (arith, u32_bytes b o v, u8array_to_u32_sum (u32_to_u8array b o v) o),
  λ i h. ground arith,
  λ i h. ground arith,
)

-- Writing back what was read from an array of bytes changes no byte of it.
pub u8array-u8array_self :
    (b : Buffer) (o i : ℕ)
    → IsBytes b
    → (u16_to_u8array b o (u8array_to_u16 b o) i ≡ b i)
      × (u32_to_u8array b o (u8array_to_u32 b o) i ≡ b i)
unfolding u16_to_u8array u32_to_u8array
u8array-u8array_self b o i h = (
  ground (arith, h o, h (o + 1), u8array_to_u16_sum b o),
  ground (arith, h o, h (o + 1), h (o + 2), h (o + 3), u8array_to_u32_sum b o),
)
