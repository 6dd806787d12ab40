-- ===== src/Cache/Page/Search.antt =====
-- `_FAT_cache_getPage`: what the search over the pages finds.
use libfat.Base.{
  ℕ, zero, suc, ◌+◌, ◌≤◌, ◌<◌, ◌≡◌, ◌⊎◌, inl, inr, Bool, true, false, arith, Bool-cases,
}
use native.Mathlib.Decide.{ℕ_discrete}
use libfat.Cache.State.{CacheConfig, CacheEntry, cache_free}
use libfat.Cache.Invariant.{IsSound, IsFree, IsHeld, Covers}
use libfat.Cache.Page.{PageSearch, hit, miss, holds, find_page}

module _ (config : CacheConfig) (sound : IsSound config) where
  pub holds-Covers :
      (e : CacheEntry) (s : ℕ) → IsFree e ⊎ IsHeld config e → holds e s ≡ true → Covers e s
  unfolding holds
  holds-Covers e s (inl free) h = absurd (ground arith)
  holds-Covers e s (inr held) h = ground arith

  pub holds-none :
      (e : CacheEntry) (s : ℕ)
      → IsFree e ⊎ IsHeld config e
      → s < config.end_of_partition
      → holds e s ≡ false
      → ¬ (Covers e s)
  unfolding holds
  holds-none e s (inl free) lt h c = omega arith
  holds-none e s (inr held) lt h c = ground arith

  module _ (entries : ℕ → CacheEntry) (sector n : ℕ)
      (shape : (i : ℕ) → i < n → IsFree (entries i) ⊎ IsHeld config (entries i))
      (inside : sector < config.end_of_partition) where
    -- `from` is the first page that the search has still to look at.
    abbrev pub Found : ℕ → PageSearch → Type 0
    Found from (hit i) = (i < n) × Covers (entries i) sector
    Found from (miss used found_free) =
        (used < n)
        × ((j : ℕ) → from ≤ j → j < n → ¬ (Covers (entries j) sector))
        × (found_free ≡ true → (entries used).sector ≡ cache_free)

    Found-earlier :
        (i : ℕ) (r : PageSearch) → ¬ (Covers (entries i) sector) → Found (i + 1) r → Found i r
    Found-earlier i (hit j) h f = f
    Found-earlier i (miss used found_free) h f = (
      f.0,
      (λ j le lt c. elim (ℕ_discrete i j) [
        | yes e ↦ h (rw e c)
        | no ne ↦ f.1 j (omega arith) lt c
      ]),
      f.2,
    )

    -- The search ends at a page that holds the sector, or none does and the page to replace is one
    -- of the pages, an unused one if foundFree is set.
    pub find_page-Found :
        (left i : ℕ) (found_free : Bool) (old_used old_access : ℕ)
        → i + left ≡ n
        → old_used < n
        → (found_free ≡ true → (entries old_used).sector ≡ cache_free)
        → Found i (find_page entries sector left i found_free old_used old_access)
    unfolding find_page
    find_page-Found zero i ff ou oa e lt free = (lt, (λ j h h'. absurd (omega arith)), free)
    find_page-Found (suc left) i ff ou oa e lt free = elim (Bool-cases (holds (entries i) sector)) [
      | inl here ↦
          rw here (omega arith, holds-Covers (entries i) sector (shape i (omega arith)) here)
      | inr elsewhere ↦ rw elsewhere (
          Found-earlier i _ (holds-none (entries i) sector (shape i (omega arith)) inside elsewhere)
            (find_page-Found left (i + 1) _ _ _ (omega arith) (ground arith) (ground arith)))
    ]
