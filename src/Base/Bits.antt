-- ===== src/Base/Bits.antt =====
-- `|` of disjoint fields is a sum, `&` with a mask of low ones is a remainder.
use Prim.Native.Nat.{
  ℕ, zero, suc, ◌+◌, ◌-◌, ◌*◌, ◌/◌, ◌%◌, ◌^◌, ◌≤◌, ◌<◌, min, max, bit_and, bit_or, digits, bitwise,
  bit_and-bitwise, bit_or-bitwise,
}
use mathlib.Core.Path.{◌≡◌, refl, ap}
use mathlib.Core.Bool.{Bool, true, ◌&&◌}
use native.Mathlib.Nat.{pow-suc, one-le-pow}
use native.Mathlib.Omega.{arith}
use libfat.Base.Tests.{◌==◌, ==_iff}

-- The digits of `a` and `b` joined by `join`, once there is fuel for all of `a`.
module _ (rest : ℕ → ℕ) (join : ℕ → ℕ → ℕ) where
  enough_fuel : (f g a b : ℕ) → a ≤ f → a ≤ g → digits rest join f a b ≡ digits rest join g a b
  enough_fuel zero g (suc a) b hf hg = absurd (omega arith)
  enough_fuel zero zero zero b hf hg = refl
  enough_fuel zero (suc g) zero b hf hg = refl
  enough_fuel (suc f) zero (suc a) b hf hg = absurd (omega arith)
  enough_fuel (suc f) zero zero b hf hg = refl
  enough_fuel (suc f) (suc g) zero b hf hg = refl
  enough_fuel (suc f) (suc g) (suc a) b hf hg =
      rw (enough_fuel f g (suc a / 2) (b / 2) (omega arith) (omega arith))

  one_digit :
      (a b : ℕ)
      → bitwise rest join (suc a) b
        ≡ bitwise rest join (suc a / 2) (b / 2) * 2 + join (suc a % 2) (b % 2)
  one_digit a b =
      omega (arith, enough_fuel a (suc a / 2) (suc a / 2) (b / 2) (omega arith) (omega arith))

or_digit : (a b : ℕ) → bit_or a b ≡ bit_or (a / 2) (b / 2) * 2 + max (a % 2) (b % 2)
or_digit zero b = simp bit_or-bitwise (omega arith)
or_digit (suc a) b = simp bit_or-bitwise (one_digit (λ y. y) max a b)

and_digit : (a b : ℕ) → bit_and a b ≡ bit_and (a / 2) (b / 2) * 2 + min (a % 2) (b % 2)
and_digit zero b = simp bit_and-bitwise (omega arith)
and_digit (suc a) b = simp bit_and-bitwise (one_digit (λ y. 0) min a b)

or-zero_fuel : (f a : ℕ) → a ≤ f → bit_or a 0 ≡ a
or-zero_fuel f zero h = refl
or-zero_fuel zero (suc a) h = absurd (omega arith)
or-zero_fuel (suc f) (suc a) h =
    omega (arith, or_digit (suc a) 0, or-zero_fuel f (suc a / 2) (omega arith))

zero-bit_or : (a : ℕ) → bit_or 0 a ≡ a
zero-bit_or a = bit_or-bitwise 0 a

and-zero_fuel : (f a : ℕ) → a ≤ f → bit_and a 0 ≡ 0
and-zero_fuel f zero h = refl
and-zero_fuel zero (suc a) h = absurd (omega arith)
and-zero_fuel (suc f) (suc a) h =
    omega (arith, and_digit (suc a) 0, and-zero_fuel f (suc a / 2) (omega arith))

shift_suc : (q k : ℕ) → q * 2 ^ suc k ≡ 2 * (q * 2 ^ k)
shift_suc q k = omega (arith, ap (λ (t : ℕ). q * t) (pow-suc 2 k))

-- `r | (q << k)` where `r` fits `k` bits.
pub bit_or_low : (k r q : ℕ) → r < 2 ^ k → bit_or r (q * 2 ^ k) ≡ r + q * 2 ^ k
bit_or_low zero r q h = ground (arith, zero-bit_or q)
bit_or_low (suc k) r q h = ground (
  arith,
  or_digit r (q * 2 ^ suc k),
  shift_suc q k,
  pow-suc 2 k,
  bit_or_low k (r / 2) q (omega arith),
)

-- `(q << k) | r` where `r` fits `k` bits.
pub bit_or_high : (k q r : ℕ) → r < 2 ^ k → bit_or (q * 2 ^ k) r ≡ q * 2 ^ k + r
bit_or_high zero q r h = ground (arith, or-zero_fuel q q (omega arith))
bit_or_high (suc k) q r h = ground (
  arith,
  or_digit (q * 2 ^ suc k) r,
  shift_suc q k,
  pow-suc 2 k,
  bit_or_high k q (r / 2) (omega arith),
)

and_fields : (k q r : ℕ) → r < 2 ^ k → bit_and (q * 2 ^ k + r) (2 ^ k - 1) ≡ r
and_fields zero q r h = ground (arith, and-zero_fuel (q + r) (q + r) (omega arith))
and_fields (suc k) q r h = ground (
  arith,
  and_digit (q * 2 ^ suc k + r) (2 ^ suc k - 1),
  shift_suc q k,
  pow-suc 2 k,
  one-le-pow k 2,
  and_fields k q (r / 2) (omega arith),
)

-- `a & (2 ^ k - 1)`.
pub bit_and_mask : (k a : ℕ) → bit_and a (2 ^ k - 1) ≡ a % 2 ^ k
bit_and_mask k a = ground (arith, one-le-pow k 2, and_fields k (a / 2 ^ k) (a % 2 ^ k))

-- Facts about bytes, by their 256 values.
all_below : ℕ → (ℕ → Bool) → Bool
all_below zero p = true
all_below (suc n) p = p n && all_below n p

all_below_lem : (n : ℕ) (p : ℕ → Bool) (x : ℕ) → all_below n p ≡ true → x < n → p x ≡ true
unfolding all_below
all_below_lem zero p x h lt = absurd (omega arith)
all_below_lem (suc n) p x h lt = ground (arith, all_below_lem n p x)

high_nibble_table : all_below 256 (λ x. bit_and x 0xF0 == x / 16 * 16) ≡ true
unfolding all_below
high_nibble_table = refl

-- `x & 0xF0` of a byte.
pub bit_and_high : (x : ℕ) → x < 256 → bit_and x 0xF0 ≡ x / 16 * 16
bit_and_high x h =
    (==_iff _ _).0 (all_below_lem 256 (λ y. bit_and y 0xF0 == y / 16 * 16) x high_nibble_table h)

archive_table :
    all_below 256 (λ x.
      bit_and (bit_or x 0x20) 0x10 == bit_and x 0x10
      && (bit_and (bit_or x 0x20) 0x01 == bit_and x 0x01 && bit_or x 0x20 % 256 == bit_or x 0x20))
    ≡ true
unfolding all_below
archive_table = refl

-- Bit 5 of a byte is neither bit 4 nor bit 0, and below 256.
pub bit_and-bit_or :
    (x : ℕ)
    → x < 256
    → (bit_and (bit_or x 0x20) 0x10 ≡ bit_and x 0x10)
      × (bit_and (bit_or x 0x20) 0x01 ≡ bit_and x 0x01)
      × (bit_or x 0x20 % 256 ≡ bit_or x 0x20)
bit_and-bit_or x h =
    let t =
      all_below_lem 256
        (λ y.
          bit_and (bit_or y 0x20) 0x10 == bit_and y 0x10
          && (bit_and (bit_or y 0x20) 0x01 == bit_and y 0x01
              && bit_or y 0x20 % 256 == bit_or y 0x20))
        x archive_table h in
    ground (arith, t)
