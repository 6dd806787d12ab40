-- ===== src/File/Layout.antt =====
-- Where the bytes of a file stand: different offsets at different places, none of them in the table.
pub mod Puts
use libfat.Base.{
  ℕ, ◌+◌, ◌-◌, ◌*◌, ◌/◌, ◌%◌, ◌≤◌, ◌<◌, ◌≡◌, ◌⊎◌, inl, inr, true, false, ◌&&◌, arith, leb, ltb,
  ◌==◌, if◌then◌else◌, ap, refl, ◌∙◌, sym, Buffer, Bool-cases, zero, suc,
}
use native.Mathlib.Decide.{dec_lt, ℕ_discrete}
use libfat.Cache.Invariant.{Sectors}
use libfat.Cache.Sector.Partial.{put_bytes}
use libfat.Cache.Run.Writing.{put_run}
use libfat.Partition.State.{FsType, fs_unknown, fs_fat12, fs_fat16, fs_fat32, Partition}
use libfat.Fat.Entry.{cluster_eof, cluster_first, cluster_to_sector}
use libfat.Fat.Entry.Places.{div_mod_unique, mod_bounds, div_lt, has_entry}
use libfat.Fat.Table.{IsFat, table, fat_byte, raw_entry, first_byte, entry_bytes, link, HasEntry}
use libfat.Fat.Chain.Clear.{IsFat-small}
use libfat.Fat.Chain.Shows.{Links}
use libfat.File.Content.{
  IsData, IsClusters, content, content_at, content_run, cluster_to_sector-valid, offset_parts,
  some_bytes, some_cluster,
}

raw_entry-same :
    (ty : FsType) (b b' : ℕ → ℕ) (c room : ℕ)
    → first_byte ty c + entry_bytes ty ≤ room
    → ((a : ℕ) → a < room → b' a ≡ b a)
    → raw_entry ty b' c ≡ raw_entry ty b c
raw_entry-same fs_unknown b b' c room fits same = refl
raw_entry-same fs_fat12 b b' c room fits same =
    rw (same (c * 3 / 2) (omega arith), same (c * 3 / 2 + 1) (omega arith)) refl
raw_entry-same fs_fat16 b b' c room fits same =
    rw (same (c * 2) (omega arith), same (c * 2 + 1) (omega arith)) refl
raw_entry-same fs_fat32 b b' c room fits same =
    rw
      (
        same (c * 4) (omega arith),
        same (c * 4 + 1) (omega arith),
        same (c * 4 + 2) (omega arith),
        same (c * 4 + 3) (omega arith),
      )
      refl

-- The link of a cluster depends on no sector behind the table.
pub table-same :
    (p : Partition) (size : ℕ) (s s' : Sectors) (c : ℕ)
    → IsData p size
    → c ≤ p.fat.last_cluster
    → ((t o : ℕ) → t < p.data_start → s' t o ≡ s t o)
    → table s' p c ≡ table s p c
unfolding table
table-same p size s s' c d le same =
    let e = has_entry p size d.fat c le in
    let w = p.bytes_per_sector in
    let room = p.fat.sectors_per_fat * w in
    let byte : (a : ℕ) → a < room → fat_byte s' p a ≡ fat_byte s p a = λ a h.
      let q = div_lt a w p.fat.sectors_per_fat (some_bytes p size d) h in
      same (p.fat.fat_start + a / w) (a % w) (omega (arith, d.behind_table)) in
    rw (raw_entry-same p.filesys_type (fat_byte s p) (fat_byte s' p) c room e.inside byte) refl

module _ (p : Partition) (size : ℕ) (d : IsData p size) (links : Links) (cl : ℕ → ℕ) (m : ℕ)
    (clusters : IsClusters p links cl m) where
  open p use {bytes_per_sector, sectors_per_cluster, bytes_per_cluster}

  -- Two places of a chain with the same cluster go on with the same clusters.
  same_tail : (i j t : ℕ) → i < j → j + t < m → cl i ≡ cl j → cl (i + t) ≡ cl (j + t)
  same_tail i j zero lt inside e = ap cl (omega arith) ∙ e ∙ ap cl (omega arith)
  same_tail i j (suc t) lt inside e =
      let before = same_tail i j t lt (omega arith) e in
      ap cl (omega arith)
      ∙ sym (clusters.linked (i + t) (omega arith))
      ∙ ap links before
      ∙ clusters.linked (j + t) (omega arith)
      ∙ ap cl (omega arith)

  -- A chain that ends has no cluster twice.
  no_return : (i j : ℕ) → i < j → j < m → cl i ≡ cl j → ⊥
  no_return i j lt inside e =
      let t = m - 1 - j in
      let same = same_tail i j t lt (omega arith) e in
      let last : links (cl (j + t)) ≡ cluster_eof = clusters.ends (j + t) (omega arith) in
      let on : links (cl (i + t)) ≡ cl (i + t + 1) = clusters.linked (i + t) (omega arith) in
      let (lo, hi) = clusters.valid (i + t + 1) (omega arith) in
      let eof : cl (i + t + 1) ≡ cluster_eof = sym on ∙ ap links same ∙ last in
      omega (arith, eof, hi, IsFat-small d.fat)

  pub cl-injective : (i j : ℕ) → i < m → j < m → cl i ≡ cl j → i ≡ j
  cl-injective i j h h' e = elim (ℕ_discrete i j) [
    | yes same ↦ same
    | no ne ↦ elim (dec_lt i j) [
      | yes lt ↦ absurd (no_return i j lt h' e)
      | no ge ↦ absurd (no_return j i (omega arith) h (sym e))
    ]
  ]

  -- The sector of an offset of the file.
  abbrev pub file_sector : ℕ → ℕ
  file_sector pos =
      cluster_to_sector p (cl (pos / bytes_per_cluster))
      + pos % bytes_per_cluster / bytes_per_sector

  pub file_sector-injective :
      (a b : ℕ)
      → a < m * bytes_per_cluster
      → b < m * bytes_per_cluster
      → file_sector a ≡ file_sector b
      → a % bytes_per_sector ≡ b % bytes_per_sector
      → a ≡ b
  file_sector-injective a b h h' e e' =
      let pos = some_cluster p size d in
      let i = a / bytes_per_cluster in
      let j = b / bytes_per_cluster in
      let lt = div_lt a bytes_per_cluster m pos h in
      let lt' = div_lt b bytes_per_cluster m pos h' in
      let (parts, inside, _) = offset_parts p size d a in
      let (parts', inside', _) = offset_parts p size d b in
      let (lo, hi) = clusters.valid i lt in
      let (lo', hi') = clusters.valid j lt' in
      let (f, _) = cluster_to_sector-valid p size d (cl i) lo hi in
      let (f', _) = cluster_to_sector-valid p size d (cl j) lo' hi' in
      let s = a % bytes_per_cluster / bytes_per_sector in
      let s' = b % bytes_per_cluster / bytes_per_sector in
      let n = (cl i - 2) * sectors_per_cluster + s in
      let (q, r) = div_mod_unique n (cl i - 2) s sectors_per_cluster refl inside in
      let (q', r') =
        div_mod_unique n (cl j - 2) s' sectors_per_cluster (omega (arith, e, f, f')) inside' in
      let same = cl-injective i j lt lt' (omega (arith, q, q')) in
      omega (
        arith,
        parts,
        parts',
        e',
        ap (λ (k : ℕ). k * bytes_per_cluster) same,
        ap (λ (k : ℕ). k * bytes_per_sector) (sym r ∙ r'),
      )

  -- All of them stand behind the table.
  pub file_sector-behind : (a : ℕ) → a < m * bytes_per_cluster → p.data_start ≤ file_sector a
  file_sector-behind a h =
      let lt = div_lt a bytes_per_cluster m (some_cluster p size d) h in
      let (lo, hi) = clusters.valid (a / bytes_per_cluster) lt in
      omega (arith, cluster_to_sector-valid p size d (cl (a / bytes_per_cluster)) lo hi)
