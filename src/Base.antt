-- ===== src/Base.antt =====
-- The names that every other module shares, and the helpers of three children: tests on numbers,
-- the arithmetic of bit fields, and byte buffers.
mod Tests
mod Bits
mod Memory
pub mod Lists
pub use Tests.*
pub use Bits.*
pub use Memory.*
pub use Prim.Native.Nat.{ℕ, zero, suc, ◌+◌, ◌-◌, ◌*◌, ◌/◌, ◌%◌, ◌^◌, ◌≤◌, ◌<◌, bit_and, bit_or}
pub use mathlib.Core.Path.{◌≡◌, refl, sym, ap, ◌∙◌}
pub use mathlib.Core.Logic.{◌≢◌, ◌⊎◌, inl, inr}
pub use mathlib.Core.Bool.{Bool, true, false, not, ◌&&◌, ◌||◌}
pub use mathlib.Core.Option.{Option, none, some}
pub use native.Mathlib.Omega.{arith}
