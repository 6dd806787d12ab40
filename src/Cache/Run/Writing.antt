-- ===== src/Cache/Run/Writing.antt =====
-- `_FAT_cache_writeSectors` changes the sectors that the cache stands for, and no others.
use libfat.Base.{
  ℕ, zero, suc, ◌+◌, ◌-◌, ◌*◌, ◌^◌, ◌≤◌, ◌<◌, ◌≡◌, ◌≢◌, true, false, ◌&&◌, arith, u32, sub32, ltb,
  leb, ◌==◌, if◌then◌else◌, Option, some, refl, ap, Buffer, memcpy, ◌∙◌,
}
use mathlib.Core.Path.{fun_ext, subst}
use native.Mathlib.Decide.{ℕ_discrete, dec_lt}
use libfat.Disc.{DiscInterface, Contract, IsHealthy}
use libfat.Cache.State.{CacheConfig, CacheState}
use libfat.Cache.Invariant.{Sectors, IsSound, Refines, Covers}
use libfat.Cache.Page.{get_page}
use libfat.Cache.Sector.{Write, modify}
use libfat.Cache.Sector.Update.{modify-Refines}
use libfat.Cache.Run.{run_length, write_run, write_sectors}
use libfat.Cache.Run.Rows.{page-memcpy_rows}
use libfat.Cache.Run.Reading.{run_length_bounds, page_at}

-- The sectors after `num` of them from `sector` on were taken from `b`, from offset `src` on.
abbrev pub put_run : ℕ → Sectors → ℕ → ℕ → Buffer → ℕ → Sectors
put_run w sectors sector num b src s o =
    if leb sector s && ltb s (sector + num) then b (src + (s - sector) * w + o) else sectors s o

-- Two runs that follow one another are one run.
put_run-put_run :
    (w : ℕ) (sectors : Sectors) (sector n num : ℕ) (b : Buffer) (src : ℕ)
    → n ≤ num
    → put_run w (put_run w sectors sector n b src) (sector + n) (num - n) b (src + n * w)
      ≡ put_run w sectors sector num b src
put_run-put_run w sectors sector n num b src le = fun_ext λ s. fun_ext λ o.
    elim (dec_lt s (sector + n)) [
      | yes early ↦ ground arith
      | no late ↦
          let e : s - sector ≡ n + (s - (sector + n)) = omega arith in
          let e' : (s - sector) * w ≡ n * w + (s - (sector + n)) * w =
            ap (λ (t : ℕ). t * w) e ∙ omega arith in
          ground (arith, e')
    ]

put_run-zero :
    (w : ℕ) (sectors : Sectors) (sector num : ℕ) (b : Buffer) (src : ℕ)
    → num ≡ 0
    → put_run w sectors sector num b src ≡ sectors
put_run-zero w sectors sector num b src e = fun_ext λ s. fun_ext λ o. ground arith

module _ {disc : DiscInterface} (config : CacheConfig) (sound : IsSound config)
    (contract : Contract disc config.bytes_per_sector)
    (healthy : IsHealthy disc config.end_of_partition) where
  open config use {number_of_pages, bytes_per_sector, end_of_partition, sectors_per_page}

  write_run_stops :
      (fuel : ℕ) (st : CacheState disc) (b : Buffer) (src sector num : ℕ)
      → num ≡ 0
      → write_run disc config fuel st b src sector num ≡ some (record { ok = true; state = st })
  unfolding write_run
  write_run_stops zero st b src sector num e = rw e refl
  write_run_stops (suc fuel) st b src sector num e = rw (e, write_run) refl

  write_run_round :
      (fuel : ℕ) (st : CacheState disc) (b : Buffer) (src sector num i : ℕ)
      → num ≢ 0
      → (get_page disc config st sector).0 ≡ some i
      → let st' = (get_page disc config st sector).1 in
        let e = st'.cache_entries i in
        let n = run_length disc config e sector num in
        write_run disc config (suc fuel) st b src sector num
        ≡ write_run disc config fuel
            (modify disc config st' i (
              memcpy e.cache
                (sub32 sector e.sector * bytes_per_sector)
                b
                src
                (n * bytes_per_sector)))
            b
            (src + n * bytes_per_sector)
            (u32 (sector + n))
            (num - n)
  unfolding write_run
  write_run_round fuel st b src sector num i ne e =
      let t : (num == 0) ≡ false = ground arith in rw (t, write_run) (rw (e, write_run) refl)

  -- What one round does to the sectors.
  write_round-Refines :
      (sectors : Sectors) (st : CacheState disc) (b : Buffer) (src sector n i : ℕ)
      → i < number_of_pages
      → Covers (st.cache_entries i) sector
      → Refines config contract st sectors
      → sector < end_of_partition
      → sector + n ≤ (st.cache_entries i).sector + (st.cache_entries i).count
      → Refines config contract
          (modify disc config st i (
            memcpy
              (st.cache_entries i).cache
              (sub32 sector (st.cache_entries i).sector * bytes_per_sector)
              b
              src
              (n * bytes_per_sector)))
          (put_run bytes_per_sector sectors sector n b src)
  write_round-Refines sectors st b src sector n i lt c r inside within =
      modify-Refines config sound contract sectors (put_run bytes_per_sector sectors sector n b src)
        st i _ lt sector c r
        (λ s o c' h. ground (
          arith,
          r.cached i s o lt c' h,
          page-memcpy_rows bytes_per_sector (st.cache_entries i).sector sector n o (omega arith)
              (omega (arith, sound.no_wrap)) h (st.cache_entries i).cache b src s (omega arith),
        ))
        (λ s o nc. ground arith)

  -- A run that has been written whole.
  record WriteRun (sectors : Sectors) (b : Buffer) (src sector num : ℕ)
      (r : Option (Write disc config)) : Type 0 where
    result : Write disc config
    ends : r ≡ some result
    success : result.ok ≡ true
    refines :
        Refines config contract result.state (put_run bytes_per_sector sectors sector num b src)

  write_done :
      (fuel : ℕ) (sectors : Sectors) (st : CacheState disc) (b : Buffer) (src sector num : ℕ)
      → num ≡ 0
      → Refines config contract st sectors
      → WriteRun sectors b src sector num (write_run disc config fuel st b src sector num)
  write_done fuel sectors st b src sector num e r = record {
    result = record { ok = true; state = st };
    ends = write_run_stops fuel st b src sector num e;
    success = refl;
    refines = rw (put_run-zero bytes_per_sector sectors sector num b src e) r;
  }

  -- A round of `n` sectors and what follows it.
  write_rest :
      (sectors : Sectors) (b : Buffer) (src sector n num : ℕ) (rest : Option (Write disc config))
      → n ≤ num
      → sector + n < 2 ^ 32
      → WriteRun
          (put_run bytes_per_sector sectors sector n b src)
          b
          (src + n * bytes_per_sector)
          (u32 (sector + n))
          (num - n)
          rest
      → WriteRun sectors b src sector num rest
  write_rest sectors b src sector n num rest le small f =
      let e : u32 (sector + n) ≡ sector + n = omega arith in
      record {
        result = f.result;
        ends = f.ends;
        success = f.success;
        refines =
            subst (Refines config contract f.result.state)
              (rw e (put_run-put_run bytes_per_sector sectors sector n num b src le)) f.refines;
      }

  write_run-WriteRun :
      (fuel : ℕ) (sectors : Sectors) (st : CacheState disc) (b : Buffer) (src sector num : ℕ)
      → num ≤ fuel
      → sector + num ≤ end_of_partition
      → Refines config contract st sectors
      → WriteRun sectors b src sector num (write_run disc config fuel st b src sector num)
  write_run-WriteRun zero sectors st b src sector num le inside r =
      write_done zero sectors st b src sector num (omega arith) r
  write_run-WriteRun (suc fuel) sectors st b src sector num le inside r = elim (ℕ_discrete num 0) [
    | yes e ↦ write_done (suc fuel) sectors st b src sector num e r
    | no ne ↦
        let (i, e, (lt, c, r')) =
          page_at config sound contract healthy sectors st sector (omega arith) r in
        let st' = (get_page disc config st sector).1 in
        let n = run_length disc config (st'.cache_entries i) sector num in
        let (pos, le', within) =
          run_length_bounds config sound contract healthy (st'.cache_entries i) sector num c
            (omega (arith, sound.no_wrap)) (ground (arith, r'.shape i lt, sound.no_wrap))
            (omega arith) in
        rw (write_run_round fuel st b src sector num i ne e) (
          write_rest sectors b src sector n num _ le' (omega (arith, sound.no_wrap)) (
            write_run-WriteRun fuel (put_run bytes_per_sector sectors sector n b src) _ b
              (src + n * bytes_per_sector) (u32 (sector + n)) (num - n) (omega arith)
              (omega (arith, sound.no_wrap))
              (write_round-Refines sectors st' b src sector n i lt c r' (omega arith) within)))
  ]

  -- On a medium without faults writing a run of sectors of the partition ends and succeeds, and the
  -- cache then stands for the sectors with those replaced by the bytes of the buffer.
  pub write_sectors-Refines :
      (sectors : Sectors) (st : CacheState disc) (b : Buffer) (sector num : ℕ)
      → sector + num ≤ end_of_partition
      → Refines config contract st sectors
      → (x : Write disc config) × (write_sectors disc config st sector num b ≡ some x)
        × (x.ok ≡ true)
        × Refines config contract x.state (put_run bytes_per_sector sectors sector num b 0)
  unfolding write_sectors
  write_sectors-Refines sectors st b sector num inside r =
      let f = write_run-WriteRun num sectors st b 0 sector num (omega arith) inside r in
      (f.result, f.ends, f.success, f.refines)
