-- ===== src/Base/Memory.antt =====
-- Byte buffers: `uint8_t*` as a function from the offset to the byte there, with `memcpy` and
-- `memset` over a range of offsets.
use Prim.Native.Nat.{ℕ, ◌+◌, ◌-◌}
use mathlib.Core.Bool.{◌&&◌}
use libfat.Base.Tests.{ltb, leb, if◌then◌else◌}

abbrev pub Buffer : Type 0
Buffer = ℕ → ℕ

-- memcpy (dst + d, src + s, n)
abbrev pub memcpy : Buffer → ℕ → Buffer → ℕ → ℕ → Buffer
memcpy dst d src s n = λ i. if leb d i && ltb i (d + n) then src (s + (i - d)) else dst i

-- memset (dst + d, v, n)
abbrev pub memset : Buffer → ℕ → ℕ → ℕ → Buffer
memset dst d v n = λ i. if leb d i && ltb i (d + n) then v else dst i
