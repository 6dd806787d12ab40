-- ===== src/Cache/Sector/Update.antt =====
-- Changing the bytes of a page changes the sectors that the cache stands for in the same way.
use libfat.Base.{
  ℕ, ◌+◌, ◌-◌, ◌*◌, ◌^◌, ◌≤◌, ◌<◌, ◌≡◌, ◌⊎◌, inl, inr, Bool, true, ◌&&◌, arith, sub32, ltb, leb,
  ◌==◌, if◌then◌else◌, Bool-cases, refl, Buffer, memcpy, memset, ◌∙◌,
}
use native.Mathlib.Decide.{ℕ_discrete, dec_lt}
use libfat.Disc.{DiscInterface, Contract}
use libfat.Cache.State.{CacheConfig, CacheState}
use libfat.Cache.Invariant.{Sectors, IsSound, IsFree, IsHeld, Covers, Refines}
use libfat.Cache.Sector.{modify}

pub row_after : (w k t : ℕ) → k < t → k * w + w ≤ t * w
row_after w k t h = grind arith

-- Where rows of `w` bytes follow one another, byte `o` of row `k` is among the `n` bytes from
-- byte `a` of row `t` on only if the rows are the same.
pub in_row :
    (w k t o a n : ℕ)
    → o < w
    → a + n ≤ w
    → (leb (t * w + a) (k * w + o) && ltb (k * w + o) (t * w + a + n))
      ≡ (k == t && (leb a o && ltb o (a + n)))
in_row w k t o a n h h' = elim (dec_lt k t) [
  | yes below ↦ let m : k * w + w ≤ t * w = row_after w k t below in ground arith
  | no nb ↦ elim (dec_lt t k) [
    | yes above ↦ let m : t * w + w ≤ k * w = row_after w t k above in ground arith
    | no na ↦ let e : k ≡ t = omega arith in rw e (ground arith)
  ]
]

pub sub32_lem : (a b : ℕ) → b ≤ a → a < 2 ^ 32 → sub32 a b ≡ a - b
sub32_lem a b h h' = omega arith

-- The bytes of a page after a `memcpy` or a `memset` into a part of one of its sectors; `first` is the
-- first sector of the page.
module _ (w first sector s o offset size : ℕ) (le : first ≤ sector) (small : sector < 2 ^ 32)
    (le' : first ≤ s) (h : o < w) (fits : offset + size ≤ w) where
  abbrev in_part : Bool
  in_part = s == sector && (leb offset o && ltb o (offset + size))

  in_part_lem :
      (leb (sub32 sector first * w + offset) ((s - first) * w + o)
        && ltb ((s - first) * w + o) (sub32 sector first * w + offset + size))
      ≡ in_part
  in_part_lem =
      rw (sub32_lem sector first le small)
        (in_row w (s - first) (sector - first) o offset size h fits ∙ ground arith)

  offset_lem : in_part ≡ true → (s - first) * w + o - (sub32 sector first * w + offset) ≡ o - offset
  offset_lem e =
      let same : s ≡ sector = ground arith in
      rw (sub32_lem sector first le small, same) (omega arith)

  pub page-memcpy :
      (c b : Buffer) (q : ℕ)
      → memcpy c (sub32 sector first * w + offset) b q size ((s - first) * w + o)
        ≡ (if in_part then b (q + (o - offset)) else c ((s - first) * w + o))
  page-memcpy c b q = elim (Bool-cases in_part) [
    | inl e ↦ rw (in_part_lem, e, offset_lem e) refl
    | inr e ↦ rw (in_part_lem, e) refl
  ]

  pub page-memset :
      (c : Buffer) (v : ℕ)
      → memset c (sub32 sector first * w + offset) v size ((s - first) * w + o)
        ≡ (if in_part then v else c ((s - first) * w + o))
  page-memset c v = rw in_part_lem refl

module _ {disc : DiscInterface} (config : CacheConfig) (sound : IsSound config)
    (contract : Contract disc config.bytes_per_sector) (sectors : Sectors) where
  open config use {number_of_pages, bytes_per_sector, end_of_partition, sectors_per_page}

  modify-shape :
      (st : CacheState disc) (i : ℕ) (bytes : Buffer)
      → i < number_of_pages
      → (sector : ℕ) → Covers (st.cache_entries i) sector
      → Refines config contract st sectors
      → (j : ℕ) → j < number_of_pages
      → IsFree ((modify disc config st i bytes).cache_entries j)
        ⊎ IsHeld config ((modify disc config st i bytes).cache_entries j)
  modify-shape st i bytes lt sector cov r j h = elim (ℕ_discrete j i) [
    | yes e ↦ elim (r.shape i lt) [
      | inl free ↦ absurd (omega arith)
      | inr held ↦
          inr (record { aligned = ground arith; inside = ground arith; whole = ground arith })
    ]
    | no ne ↦ ground (arith, r.shape j h)
  ]

  pub modify-Refines :
      (sectors' : Sectors) (st : CacheState disc) (i : ℕ) (bytes : Buffer)
      → i < number_of_pages
      → (sector : ℕ) → Covers (st.cache_entries i) sector
      → Refines config contract st sectors
      → ((s o : ℕ)
          → Covers (st.cache_entries i) s
          → o < bytes_per_sector
          → bytes ((s - (st.cache_entries i).sector) * bytes_per_sector + o) ≡ sectors' s o)
      → ((s o : ℕ) → ¬ (Covers (st.cache_entries i) s) → sectors' s o ≡ sectors s o)
      → Refines config contract (modify disc config st i bytes) sectors'
  modify-Refines sectors' st i bytes lt sector cov r here there = record {
    shape = λ j h. modify-shape st i bytes lt sector cov r j h;
    cached = λ j s o h c b. elim (ℕ_discrete j i) [
      | yes e ↦ ground (arith, here s o)
      | no ne ↦
          ground (arith, r.cached j s o, there s o (λ c'. absurd (ground (arith, r.alone i j s))))
    ];
    stored = λ s o h b clean. ground (
      arith,
      there s o (λ c. absurd (ground (arith, clean i))),
      r.stored s o h b (λ j hj cj. ground (arith, clean j hj)),
    );
    alone = λ j k s h h' c c'. ground (arith, r.alone j k s);
  }
