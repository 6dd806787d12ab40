-- ===== src/Cache/Run/Rows.antt =====
-- Copying whole rows of `w` bytes into or out of the buffer of a page; `first` is the first sector
-- of the page.
use libfat.Base.{
  ℕ, ◌+◌, ◌-◌, ◌*◌, ◌^◌, ◌≤◌, ◌<◌, ◌≡◌, ◌&&◌, arith, sub32, ltb, leb, if◌then◌else◌, ap, Buffer,
  memcpy, ◌∙◌,
}
use native.Mathlib.Decide.{dec_lt}
use libfat.Cache.Sector.Update.{row_after, sub32_lem}

mul_mono : (w a b : ℕ) → a ≤ b → a * w ≤ b * w
mul_mono w a b h = grind arith

-- Byte `o` of row `k` is within rows `t` up to `t + n`.
in_rows :
    (w k t n o : ℕ)
    → o < w
    → (leb (t * w) (k * w + o) && ltb (k * w + o) (t * w + n * w)) ≡ (leb t k && ltb k (t + n))
in_rows w k t n o h = elim (dec_lt k t) [
  | yes below ↦ let m : k * w + w ≤ t * w = row_after w k t below in ground arith
  | no from ↦ elim (dec_lt k (t + n)) [
    | yes within ↦
        let m : k * w + w ≤ (t + n) * w = row_after w k (t + n) within in
        let m' : t * w ≤ k * w = mul_mono w t k (omega arith) in ground arith
    | no above ↦ let m : (t + n) * w ≤ k * w = mul_mono w (t + n) k (omega arith) in ground arith
  ]
]

module _ (w first sector n o : ℕ) (le : first ≤ sector) (small : sector < 2 ^ 32) (h : o < w) where
  -- Out of the page.
  pub memcpy_row :
      (c b : Buffer) (dest k : ℕ)
      → k < n
      → memcpy b dest c (sub32 sector first * w) (n * w) (dest + k * w + o)
        ≡ c ((sector + k - first) * w + o)
  memcpy_row c b dest k hk =
      let m : k * w + w ≤ n * w = row_after w k n hk in
      let e : sector + k - first ≡ (sector - first) + k = omega arith in
      let e' : (sector + k - first) * w ≡ (sector - first) * w + k * w =
        ap (λ (t : ℕ). t * w) e ∙ omega arith in
      rw (sub32_lem sector first le small) (ground (arith, e'))

  -- Into the page.
  pub page-memcpy_rows :
      (c b : Buffer) (src s : ℕ)
      → first ≤ s
      → memcpy c (sub32 sector first * w) b src (n * w) ((s - first) * w + o) ≡ (
          if leb sector s && ltb s (sector + n)
          then b (src + (s - sector) * w + o)
          else c ((s - first) * w + o))
  page-memcpy_rows c b src s le' =
      rw (sub32_lem sector first le small, in_rows w (s - first) (sector - first) n o h)
        (elim (dec_lt s sector) [
          | yes below ↦ ground arith
          | no above ↦
              let e : s - first ≡ (sector - first) + (s - sector) = omega arith in
              let e' : (s - first) * w ≡ (sector - first) * w + (s - sector) * w =
                ap (λ (t : ℕ). t * w) e ∙ omega arith in
              ground (arith, e')
        ])
