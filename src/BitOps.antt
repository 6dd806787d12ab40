-- ===== src/BitOps.antt =====
-- source/bit_ops.h: little-endian values in byte arrays.
pub mod RoundTrip
use libfat.Base.{ℕ, ◌+◌, ◌*◌, ◌/◌, ◌^◌, bit_or, Buffer, u8, u16, u32, if◌then◌else◌, ◌==◌}

unfoldable pub u8array_to_u16 : Buffer → ℕ → ℕ
u8array_to_u16 item offset = u16 (bit_or (item offset) (item (offset + 1) * 2 ^ 8))

unfoldable pub u8array_to_u32 : Buffer → ℕ → ℕ
u8array_to_u32 item offset = u32 (
    bit_or (bit_or (bit_or (item offset) (item (offset + 1) * 2 ^ 8)) (item (offset + 2) * 2 ^ 16))
      (item (offset + 3) * 2 ^ 24))

-- item[i] = (uint8_t) v
abbrev pub store : Buffer → ℕ → ℕ → Buffer
store item i v = λ j. if j == i then u8 v else item j

unfoldable pub u16_to_u8array : Buffer → ℕ → ℕ → Buffer
u16_to_u8array item offset value = store (store item offset value) (offset + 1) (u16 value / 2 ^ 8)

unfoldable pub u32_to_u8array : Buffer → ℕ → ℕ → Buffer
u32_to_u8array item offset value =
    store
      (store (store (store item offset value) (offset + 1) (u32 value / 2 ^ 8)) (offset + 2)
        (u32 value / 2 ^ 16))
      (offset + 3) (u32 value / 2 ^ 24)
