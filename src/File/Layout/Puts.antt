-- ===== src/File/Layout/Puts.antt =====
-- What a write to the sectors of a file does to its bytes.
use libfat.Base.{
  ℕ, ◌+◌, ◌-◌, ◌*◌, ◌/◌, ◌%◌, ◌≤◌, ◌<◌, ◌≡◌, ◌⊎◌, inl, inr, true, ◌&&◌, arith, leb, ltb, ◌==◌, ap,
  refl, ◌∙◌, sym, Buffer, Bool-cases,
}
use libfat.Cache.Invariant.{Sectors}
use libfat.Cache.Sector.Update.{row_after}
use libfat.Cache.Sector.Partial.{put_bytes}
use libfat.Cache.Run.Writing.{put_run}
use libfat.Partition.State.{Partition}
use libfat.Fat.Entry.{cluster_first, cluster_to_sector}
use libfat.Fat.Entry.Places.{mod_bounds, div_lt}
use libfat.Fat.Chain.Shows.{Links}
use libfat.File.Content.{
  IsData, IsClusters, content, content_at, content_run, offset_parts, some_bytes, sector_fits,
}
use libfat.File.Layout.{file_sector, file_sector-injective}

pub mul_mono : (w a b : ℕ) → a ≤ b → a * w ≤ b * w
mul_mono w a b h = grind arith

module _ (p : Partition) (size : ℕ) (d : IsData p size) (links : Links) (cl : ℕ → ℕ) (m : ℕ)
    (clusters : IsClusters p links cl m) where
  open p use {bytes_per_sector, sectors_per_cluster, bytes_per_cluster}

  -- A run of `n` sectors from sector `j` of the clusters that follow one another from cluster `i` of
  -- the file on, `c` of them.
  module _ (i c j n : ℕ) (next : (k : ℕ) → k < c → cl (i + k) ≡ cl i + k)
      (lo : cluster_first ≤ cl i) (hi : cl i + c ≤ p.fat.last_cluster + 1)
      (room : j + n ≤ c * sectors_per_cluster) (inside : i + c ≤ m) where
    abbrev start : ℕ
    start = i * bytes_per_cluster + j * bytes_per_sector

    abbrev first : ℕ
    first = cluster_to_sector p (cl i) + j

    -- The place of a byte of the run.
    place :
        (t o : ℕ)
        → t < n
        → o < bytes_per_sector
        → let pos = start + t * bytes_per_sector + o in
          (file_sector p size d links cl m clusters pos ≡ first + t) × (pos % bytes_per_sector ≡ o)
    place t o h h' =
        let same : start + t * bytes_per_sector + o
            ≡ i * bytes_per_cluster + (j + t) * bytes_per_sector + o =
          omega arith in
        let sector =
          content_run p size d (λ s o'. s) cl i c (j + t) o next lo hi (omega arith) h' in
        let offset =
          content_run p size d (λ s o'. o') cl i c (j + t) o next lo hi (omega arith) h' in
        rw same (sector ∙ omega arith, offset)

    run_end : start + n * bytes_per_sector ≤ m * bytes_per_cluster
    run_end = omega (
      arith,
      mul_mono bytes_per_sector (j + n) (c * sectors_per_cluster) room,
      mul_mono bytes_per_cluster (i + c) m inside,
      ap (λ (t : ℕ). c * t) d.cluster_size,
    )

    -- An offset outside the run stands in none of its sectors.
    pub outside_run :
        (pos t : ℕ)
        → pos < m * bytes_per_cluster
        → t < n
        → file_sector p size d links cl m clusters pos ≡ first + t
        → (start + t * bytes_per_sector ≤ pos)
          × (pos < start + t * bytes_per_sector + bytes_per_sector)
    outside_run pos t h lt e =
        let (_, _, byte) = offset_parts p size d pos in
        let o = pos % bytes_per_sector in
        let (f, f') = place t o lt byte in
        let row = row_after bytes_per_sector t n lt in
        let same =
          file_sector-injective p size d links cl m clusters pos (start + t * bytes_per_sector + o)
            h (omega (arith, run_end)) (e ∙ sym f) (sym f') in
        (omega (arith, same), omega (arith, same, byte))

    pub content-put_run :
        (s : Sectors) (b : Buffer) (pos : ℕ)
        → pos < m * bytes_per_cluster
        → let s' = put_run bytes_per_sector s first n b 0 in
          (start ≤ pos → pos < start + n * bytes_per_sector → content s' p cl pos ≡ b (pos - start))
          × ((pos < start) ⊎ (start + n * bytes_per_sector ≤ pos)
              → content s' p cl pos ≡ content s p cl pos)
    content-put_run s b pos h = (
      (λ ge lt.
          let x = pos - start in
          let t = x / bytes_per_sector in
          let (e, byte) = mod_bounds x bytes_per_sector (some_bytes p size d) in
          let below = div_lt x bytes_per_sector n (some_bytes p size d) (omega (arith, ge, lt)) in
          let (f, f') = place t (x % bytes_per_sector) below byte in
          let same : start + t * bytes_per_sector + x % bytes_per_sector ≡ pos =
            omega (arith, e, ge) in
          let sector = rw same at f in
          let offset = rw same at f' in
          let at = file_sector p size d links cl m clusters pos in
          let row : (at - first) * bytes_per_sector ≡ t * bytes_per_sector =
            ap (λ (k : ℕ). k * bytes_per_sector) (omega (arith, sector)) in
          let index : 0 + (at - first) * bytes_per_sector + pos % bytes_per_sector ≡ pos - start =
            omega (arith, row, offset, e) in
          let test : (leb first at && ltb at (first + n)) ≡ true = ground (arith, sector, below) in
          rw test (ap b index)),
      (λ out.
          let at = file_sector p size d links cl m clusters pos in
          elim (Bool-cases (leb first at && ltb at (first + n))) [
            | inl within ↦
                let t = at - first in
                let at_first : at ≡ first + t = ground (arith, within) in
                let below : t < n = ground (arith, within) in
                let (from, to) = outside_run pos t h below at_first in
                let row = row_after bytes_per_sector t n below in
                absurd (ground (arith, out, from, to, row))
            | inr beyond ↦ rw beyond refl
          ]),
    )

  -- Bytes of one sector of the file.
  module _ (i j o n : ℕ) (inside : i < m) (sector : j < sectors_per_cluster)
      (fits : o + n ≤ bytes_per_sector) where
    abbrev byte_start : ℕ
    byte_start = i * bytes_per_cluster + j * bytes_per_sector + o

    abbrev byte_sector : ℕ
    byte_sector = cluster_to_sector p (cl i) + j

    pub content-put_bytes :
        (s : Sectors) (b : Buffer) (pos : ℕ)
        → pos < m * bytes_per_cluster
        → let s' = put_bytes s byte_sector o n b in
          (byte_start ≤ pos → pos < byte_start + n → content s' p cl pos ≡ b (pos - byte_start))
          × ((pos < byte_start) ⊎ (byte_start + n ≤ pos) → content s' p cl pos ≡ content s p cl pos)
    content-put_bytes s b pos h = (
      (λ ge lt.
          let x = o + (pos - byte_start) in
          let same : i * bytes_per_cluster + j * bytes_per_sector + x ≡ pos = omega (arith, ge) in
          let s' = put_bytes s byte_sector o n b in
          let c = content_at p size d s' cl i j x sector (omega (arith, ge, lt)) in
          let back : x - o ≡ pos - byte_start = omega arith in
          let test : (byte_sector == byte_sector && (leb o x && ltb x (o + n))) ≡ true =
            ground (arith, ge, lt) in
          ap (content s' p cl) (sym same) ∙ c ∙ rw test (ap b back)),
      (λ out.
          let at = file_sector p size d links cl m clusters pos in
          let x = pos % bytes_per_sector in
          elim (Bool-cases (at == byte_sector && (leb o x && ltb x (o + n)))) [
            | inl within ↦
                let place = i * bytes_per_cluster + j * bytes_per_sector + x in
                let low : x < o + n = ground (arith, within) in
                let f = content_at p size d (λ s' o'. s') cl i j x sector (omega (arith, low)) in
                let f' = content_at p size d (λ s' o'. o') cl i j x sector (omega (arith, low)) in
                let e : at ≡ byte_sector = ground (arith, within) in
                let room : place < m * bytes_per_cluster = omega (
                  arith,
                  low,
                  sector_fits p size d j sector,
                  row_after bytes_per_cluster i m inside,
                ) in
                let same =
                  file_sector-injective p size d links cl m clusters pos place h room (e ∙ sym f)
                    (sym f') in
                absurd (ground (arith, out, within, same))
            | inr beyond ↦ rw beyond refl
          ]),
    )
