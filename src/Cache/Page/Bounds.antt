-- ===== src/Cache/Page/Bounds.antt =====
-- The bounds of the page that holds a sector.
use libfat.Base.{ℕ, ◌+◌, ◌-◌, ◌*◌, ◌/◌, ◌≤◌, ◌<◌, ◌≡◌, ◌⊎◌, inl, inr, arith, sub32, refl, ap}
use Prim.Native.Nat.{min}
use native.Mathlib.Nat.{mul-div_cancel}
use libfat.Cache.State.{CacheConfig, CacheEntry}
use libfat.Cache.Invariant.{IsSound, IsFree, IsHeld, Covers}
use libfat.Cache.Page.{page_base, page_end}

-- Two multiples of `w` with a number less than `w` above both are the same.
same_multiple : (w p q s : ℕ) → p * w ≤ s → s < p * w + w → q * w ≤ s → s < q * w + w → p ≡ q
same_multiple w p q s a b c d = grind arith

div-mul_bounds : (s w : ℕ) → 0 < w → (s / w * w ≤ s) × (s < s / w * w + w)
div-mul_bounds s w h = grind arith

mul_div_self : (p w : ℕ) → 0 < w → p * w / w ≡ p
mul_div_self p w h = mul-div_cancel p h

module _ (config : CacheConfig) (sound : IsSound config) where
  open config use {end_of_partition, sectors_per_page}

  pub page_bounds :
      (sector : ℕ)
      → sector < end_of_partition
      → (page_base config sector ≤ sector)
        × (sector < page_base config sector + sectors_per_page)
        × (sub32 (page_end config sector) (page_base config sector)
            ≡ min sectors_per_page (end_of_partition - page_base config sector))
  unfolding page_base page_end
  page_bounds sector h =
      let b = div-mul_bounds sector sectors_per_page sound.some_sectors in ground (arith, b.0, b.1)

  pub page_base_aligned :
      (sector : ℕ)
      → page_base config sector ≡ page_base config sector / sectors_per_page * sectors_per_page
  unfolding page_base
  page_base_aligned sector =
      rw (mul_div_self (sector / sectors_per_page) sectors_per_page sound.some_sectors) refl

  -- A page that shares a sector with the page of `sector` holds `sector`.
  pub same_page :
      (e : CacheEntry) (sector s : ℕ)
      → IsFree e ⊎ IsHeld config e
      → sector < end_of_partition
      → Covers e s
      → page_base config sector ≤ s
      → s < page_base config sector + sectors_per_page
      → Covers e sector
  same_page e sector s (inl free) h c lo hi = absurd (omega arith)
  same_page e sector s (inr held) h c lo hi = omega (
    arith,
    page_bounds sector h,
    page_base_aligned sector,
    ap (λ (t : ℕ). t * sectors_per_page)
        (same_multiple sectors_per_page (page_base config sector / sectors_per_page)
          (e.sector / sectors_per_page) s (omega (arith, page_base_aligned sector))
          (omega (arith, page_base_aligned sector)) (omega arith) (omega arith)),
  )
