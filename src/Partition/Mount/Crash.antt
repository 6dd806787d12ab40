-- ===== src/Partition/Mount/Crash.antt =====
-- Where `_FAT_partition_constructor_buf` divides by 0.
use libfat.Base.{
  ℕ, ◌≤◌, ◌≡◌, inl, inr, true, false, ◌||◌, arith, ltb, ◌==◌, Buffer, Bool-cases, refl, ap, some,
}
use libfat.Disc.{DiscInterface}
use libfat.Partition.Find.{has_bytes, fat_sig, is_valid_mbr, bpb_fat16_file_sys_type}
use libfat.Partition.Boot.{read_boot_sector, bytes_per_sector}
use libfat.Partition.Mount.{crash, mount, find_start, mount_at}

module _ (disc : DiscInterface) (m : disc.Medium) (buffer : Buffer) (cache_size per_page start : ℕ)
    (buffers : ℕ → Buffer) (counter : ℕ) where
  abbrev first : Buffer
  first = (disc.read_sectors m start 1 buffer).buffer

  find_start-has_bytes :
      (m' : disc.Medium) (b : Buffer)
      → has_bytes b bpb_fat16_file_sys_type fat_sig ≡ true
      → find_start disc m' b start ≡ some (record { start = start; buffer = b; medium = m' })
  unfolding find_start
  find_start-has_bytes m' b sig = elim (Bool-cases (start == 0)) [
    | inl whole ↦
        let e : 0 ≡ start = ground arith in
        rw (whole, sig) (ap (λ s. some (record { start = s; buffer = b; medium = m' })) e)
    | inr part ↦ rw part refl
  ]

  -- A first sector that the driver reads, with the mark 55AA, the signature of a FAT16 volume, sectors
  -- of 512 to 4096 bytes and 0 sectors per cluster, passes every check, and the constructor divides
  -- by 0.
  pub mount-crash :
      (disc.read_sectors m start 1 buffer).ok ≡ true
      → first 0x1FE ≡ 0x55
      → first 0x1FF ≡ 0xAA
      → has_bytes first bpb_fat16_file_sys_type fat_sig ≡ true
      → 512 ≤ bytes_per_sector first
      → bytes_per_sector first ≤ 4096
      → first 0x0D ≡ 0
      → mount disc m buffer cache_size per_page start buffers counter ≡ crash
  unfolding mount mount_at is_valid_mbr read_boot_sector
  mount-crash ok end end' sig least most zero_clusters =
      let t : (ltb (bytes_per_sector first) 512 || ltb 4096 (bytes_per_sector first)) ≡ false =
        sizes (bytes_per_sector first) least most in
      let v : is_valid_mbr first ≡ true = rw sig refl in
      rw
        (
          ok,
          end,
          end',
          find_start-has_bytes (disc.read_sectors m start 1 buffer).medium first sig,
          v,
          t,
          zero_clusters,
        )
        refl
    where
      sizes : (n : ℕ) → 512 ≤ n → n ≤ 4096 → (ltb n 512 || ltb 4096 n) ≡ false
      sizes n h h' = ground arith
