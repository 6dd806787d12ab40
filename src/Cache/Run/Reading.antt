-- ===== src/Cache/Run/Reading.antt =====
-- `_FAT_cache_readSectors` returns the sectors that the cache stands for.
use libfat.Base.{
  ℕ, zero, suc, ◌+◌, ◌-◌, ◌*◌, ◌^◌, ◌≤◌, ◌<◌, ◌≡◌, ◌≢◌, true, false, arith, u32, sub32, ◌==◌,
  Option, some, refl, ap, Buffer, memcpy, ◌∙◌,
}
use native.Mathlib.Decide.{ℕ_discrete, dec_lt}
use libfat.Disc.{DiscInterface, Contract, IsHealthy}
use libfat.Cache.State.{CacheConfig, CacheEntry, CacheState}
use libfat.Cache.Invariant.{Sectors, IsSound, Refines, Covers}
use libfat.Cache.Page.{get_page}
use libfat.Cache.Page.Refine.{Fetched, Fetched-some, get_page-Fetched, get_page-some}
use libfat.Cache.Sector.{Read}
use libfat.Cache.Sector.Update.{row_after}
use libfat.Cache.Run.Rows.{memcpy_row}
use libfat.Cache.Run.{run_length, read_run, read_sectors}

module _ {disc : DiscInterface} (config : CacheConfig) (sound : IsSound config)
    (contract : Contract disc config.bytes_per_sector)
    (healthy : IsHealthy disc config.end_of_partition) where
  open config use {number_of_pages, bytes_per_sector, end_of_partition, sectors_per_page}

  -- What one round copies.
  pub run_length_bounds :
      (e : CacheEntry) (sector num : ℕ)
      → Covers e sector
      → sector < 2 ^ 32
      → e.count < 2 ^ 32
      → 0 < num
      → (0 < run_length disc config e sector num)
        × (run_length disc config e sector num ≤ num)
        × (sector + run_length disc config e sector num ≤ e.sector + e.count)
  run_length_bounds e sector num c h h' h'' = ground arith

  module _ (sectors : Sectors) where
    -- A run that has been read whole.
    record ReadRun (b : Buffer) (dest sector num : ℕ) (r : Option (Read disc config)) : Type 0 where
      result : Read disc config
      ends : r ≡ some result
      success : result.ok ≡ true
      refines : Refines config contract result.state sectors
      copied :
          (k o : ℕ)
          → k < num
          → o < bytes_per_sector
          → result.buffer (dest + k * bytes_per_sector + o) ≡ sectors (sector + k) o
      before : (i : ℕ) → i < dest → result.buffer i ≡ b i

    read_run_stops :
        (fuel : ℕ) (st : CacheState disc) (b : Buffer) (dest sector num : ℕ)
        → num ≡ 0
        → read_run disc config fuel st b dest sector num
          ≡ some (record { ok = true; buffer = b; state = st })
    unfolding read_run
    read_run_stops zero st b dest sector num e = rw e refl
    read_run_stops (suc fuel) st b dest sector num e = rw (e, read_run) refl

    -- One round, where the page is there: `i` is the page, `st'` the state, `n` the run.
    read_run_round :
        (fuel : ℕ) (st : CacheState disc) (b : Buffer) (dest sector num i : ℕ)
        → num ≢ 0
        → (get_page disc config st sector).0 ≡ some i
        → let st' = (get_page disc config st sector).1 in
          let e = st'.cache_entries i in
          let n = run_length disc config e sector num in
          read_run disc config (suc fuel) st b dest sector num
          ≡ read_run disc config fuel st'
              (memcpy b dest e.cache
                (sub32 sector e.sector * bytes_per_sector)
                (n * bytes_per_sector))
              (dest + n * bytes_per_sector)
              (u32 (sector + n))
              (num - n)
    unfolding read_run
    read_run_round fuel st b dest sector num i ne e =
        let t : (num == 0) ≡ false = ground arith in rw (t, read_run) (rw (e, read_run) refl)

    module _ (st : CacheState disc) (b : Buffer) (dest sector num i : ℕ)
        (inside : sector + num ≤ end_of_partition) (some_left : num ≢ 0) (lt : i < number_of_pages)
        (c : Covers (st.cache_entries i) sector) (r : Refines config contract st sectors) where
      abbrev entry : CacheEntry
      entry = st.cache_entries i

      abbrev n : ℕ
      n = run_length disc config entry sector num

      abbrev copied_buffer : Buffer
      copied_buffer =
          memcpy b dest entry.cache (sub32 sector entry.sector * bytes_per_sector)
            (n * bytes_per_sector)

      round_bounds : (0 < n) × (n ≤ num) × (sector + n ≤ entry.sector + entry.count)
      round_bounds =
          run_length_bounds entry sector num c (omega (arith, sound.no_wrap))
            (ground (arith, r.shape i lt, sound.no_wrap)) (omega arith)

      round_copied :
          (k o : ℕ)
          → k < n
          → o < bytes_per_sector
          → copied_buffer (dest + k * bytes_per_sector + o) ≡ sectors (sector + k) o
      round_copied k o h h' =
          memcpy_row bytes_per_sector entry.sector sector n o (omega arith)
            (omega (arith, sound.no_wrap)) h' entry.cache b dest k h
          ∙ r.cached i (sector + k) o lt (omega (arith, round_bounds)) h'

      round_late :
          (k o : ℕ) (x : Read disc config)
          → ¬ (k < n)
          → k < num
          → o < bytes_per_sector
          → ((k' o' : ℕ)
              → k' < num - n
              → o' < bytes_per_sector
              → x.buffer (dest + n * bytes_per_sector + k' * bytes_per_sector + o')
                ≡ sectors (u32 (sector + n) + k') o')
          → x.buffer (dest + k * bytes_per_sector + o) ≡ sectors (sector + k) o
      round_late k o x late h h' copied =
          let e : k ≡ n + (k - n) = omega arith in
          let e' : k * bytes_per_sector ≡ n * bytes_per_sector + (k - n) * bytes_per_sector =
            ap (λ (t : ℕ). t * bytes_per_sector) e ∙ omega arith in
          let e'' : u32 (sector + n) + (k - n) ≡ sector + k =
            omega (arith, sound.no_wrap, round_bounds) in
          ground (arith, e', e'', copied (k - n) o)

      -- The rest of the run, from where the round ends.
      round-ReadRun :
          (rest : Option (Read disc config))
          → ReadRun copied_buffer (dest + n * bytes_per_sector) (u32 (sector + n)) (num - n) rest
          → ReadRun b dest sector num rest
      round-ReadRun rest f = record {
        result = f.result;
        ends = f.ends;
        success = f.success;
        refines = f.refines;
        copied = λ k o h h'. elim (dec_lt k n) [
          | yes early ↦
              let m : k * bytes_per_sector + bytes_per_sector ≤ n * bytes_per_sector =
                row_after bytes_per_sector k n early in
              f.before (dest + k * bytes_per_sector + o) (omega arith) ∙ round_copied k o early h'
          | no late ↦ round_late k o f.result late h h' f.copied
        ];
        before = λ i h. f.before i (omega arith) ∙ ground arith;
      }

    read_run_done :
        (fuel : ℕ) (st : CacheState disc) (b : Buffer) (dest sector num : ℕ)
        → num ≡ 0
        → Refines config contract st sectors
        → ReadRun b dest sector num (read_run disc config fuel st b dest sector num)
    read_run_done fuel st b dest sector num e r = record {
      result = record { ok = true; buffer = b; state = st };
      ends = read_run_stops fuel st b dest sector num e;
      success = refl;
      refines = r;
      copied = λ k o h. absurd (omega arith);
      before = λ i h. refl;
    }

    pub page_at :
        (st : CacheState disc) (sector : ℕ)
        → sector < end_of_partition
        → Refines config contract st sectors
        → (i : ℕ) × ((get_page disc config st sector).0 ≡ some i)
          × Fetched config sound contract sectors sector
              (some i, (get_page disc config st sector).1)
    page_at st sector inside r =
        let (i, e) = get_page-some config sound contract sectors st sector r inside healthy in
        (
          i,
          e,
          Fetched-some config sound contract sectors sector i (get_page disc config st sector) e
              (get_page-Fetched config sound contract sectors st sector r inside),
        )

    read_run-ReadRun :
        (fuel : ℕ) (st : CacheState disc) (b : Buffer) (dest sector num : ℕ)
        → num ≤ fuel
        → sector + num ≤ end_of_partition
        → Refines config contract st sectors
        → ReadRun b dest sector num (read_run disc config fuel st b dest sector num)
    read_run-ReadRun zero st b dest sector num le inside r =
        read_run_done zero st b dest sector num (omega arith) r
    read_run-ReadRun (suc fuel) st b dest sector num le inside r = elim (ℕ_discrete num 0) [
      | yes e ↦ read_run_done (suc fuel) st b dest sector num e r
      | no ne ↦
          let (i, e, (lt, c, r')) = page_at st sector (omega arith) r in
          let st' = (get_page disc config st sector).1 in
          let (pos, le', within) = round_bounds st' b dest sector num i inside ne lt c r' in
          rw (read_run_round fuel st b dest sector num i ne e) (
            round-ReadRun st' b dest sector num i inside ne lt c r' _
              (read_run-ReadRun fuel st' _ _ _ _ (omega arith) (omega (arith, sound.no_wrap)) r'))
    ]

    -- On a medium without faults reading a run of sectors of the partition ends and succeeds, the
    -- buffer holds the bytes of those sectors, and the cache stands for the same sectors.
    pub read_sectors-Refines :
        (st : CacheState disc) (b : Buffer) (sector num : ℕ)
        → sector + num ≤ end_of_partition
        → Refines config contract st sectors
        → (x : Read disc config) × (read_sectors disc config st sector num b ≡ some x)
          × (x.ok ≡ true)
          × ((k o : ℕ)
              → k < num
              → o < bytes_per_sector
              → x.buffer (k * bytes_per_sector + o) ≡ sectors (sector + k) o)
          × Refines config contract x.state sectors
    unfolding read_sectors
    read_sectors-Refines st b sector num inside r =
        let f = read_run-ReadRun num st b 0 sector num (omega arith) inside r in
        (f.result, f.ends, f.success, λ k o h h'. ground (arith, f.copied k o h h'), f.refines)
