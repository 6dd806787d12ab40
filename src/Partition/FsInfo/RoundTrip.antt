-- ===== src/Partition/FsInfo/RoundTrip.antt =====
-- What `_FAT_partition_writeFSinfo` stores is what `_FAT_partition_readFSinfo` reads.
use libfat.Base.{ℕ, ◌+◌, ◌*◌, ◌^◌, ◌≤◌, ◌<◌, ◌≡◌, inl, true, false, arith, ◌==◌, Buffer, refl, ◌∙◌}
use libfat.Base.Lists.{List, [], ◌∷◌, length}
use libfat.BitOps.{u8array_to_u32, u32_to_u8array}
use libfat.BitOps.RoundTrip.{u8array-u8array}
use libfat.Disc.{DiscInterface, Contract, IsHealthy}
use libfat.Cache.State.{CacheConfig}
use libfat.Partition.State.{fs_fat32, Partition}
use libfat.Partition.Find.{has_bytes}
use libfat.Partition.Boot.{is_fat32}
use libfat.Partition.FsInfo.{
  Mounted, is_fs_info, put_counters, read_fs_info, write_fs_info, fs_info_sig1, fs_info_sig2,
  fsib_sig2,
}

has_bytes-same :
    (b c : Buffer) (o : ℕ) (xs : List ℕ)
    → ((i : ℕ) → o ≤ i → i < o + length xs → b i ≡ c i)
    → has_bytes b o xs ≡ has_bytes c o xs
unfolding has_bytes
has_bytes-same b c o [] h = refl
has_bytes-same b c o (x ∷ xs) h =
    rw
      (
        h o (omega arith) (omega arith),
        has_bytes-same b c (o + 1) xs (λ i lo hi. h i (omega arith) (omega arith)),
      )
      refl

-- The signatures are in the first 0x1e8 bytes.
is_fs_info-same : (b c : Buffer) → ((i : ℕ) → i < 0x1e8 → b i ≡ c i) → is_fs_info b ≡ is_fs_info c
unfolding is_fs_info
is_fs_info-same b c h =
    rw
      (
        has_bytes-same b c 0 fs_info_sig1 (λ i lo hi. h i (omega arith)),
        has_bytes-same b c fsib_sig2 fs_info_sig2 (λ i lo hi. h i (omega arith)),
      )
      refl

u8array_to_u32-same :
    (b c : Buffer) (o : ℕ)
    → ((i : ℕ) → o ≤ i → i < o + 4 → b i ≡ c i)
    → u8array_to_u32 b o ≡ u8array_to_u32 c o
unfolding u8array_to_u32
u8array_to_u32-same b c o h =
    rw
      (
        h o (omega arith) (omega arith),
        h (o + 1) (omega arith) (omega arith),
        h (o + 2) (omega arith) (omega arith),
        h (o + 3) (omega arith) (omega arith),
      )
      refl

put_counters_lem :
    (b : Buffer) (free last : ℕ)
    → free < 2 ^ 32
    → last < 2 ^ 32
    → let c = put_counters b free last in
      (u8array_to_u32 c 0x1e8 ≡ free)
      × (u8array_to_u32 c 0x1ec ≡ last)
      × ((i : ℕ) → i < 0x1e8 → c i ≡ b i)
put_counters_lem b free last h h' =
    let b' = u32_to_u8array b 0x1e8 free in
    let one = u8array-u8array b 0x1e8 free in
    let two = u8array-u8array b' 0x1ec last in
    (
      u8array_to_u32-same _ b' 0x1e8 (λ i lo hi. two.3 i (inl hi)) ∙ one.1 ∙ omega arith,
      two.1 ∙ omega arith,
      λ i lt. two.3 i (inl (omega arith)) ∙ one.3 i (inl lt),
    )

module _ (disc : DiscInterface) (config : CacheConfig) (p : Partition) (size : ℕ)
    (contract : Contract disc config.bytes_per_sector) (healthy : IsHealthy disc size)
    (wide : 0x200 ≤ config.bytes_per_sector) (fat32 : p.filesys_type ≡ fs_fat32)
    (inside : p.fs_info_sector + 1 ≤ size) where
  abbrev sector_of : disc.Medium → Buffer
  sector_of m = contract.content m p.fs_info_sector

  is_32 : is_fat32 p.filesys_type ≡ true
  is_32 = rw fat32 refl

  -- A sector that was read holds the bytes of the medium.
  read_bytes :
      (m : disc.Medium) (i : ℕ)
      → i < config.bytes_per_sector
      → (disc.read_sectors m p.fs_info_sector 1 (λ k. 0)).buffer i ≡ sector_of m i
  read_bytes m i h =
      let e =
        contract.read_ok m p.fs_info_sector 1 (λ k. 0) 0 i
          (healthy.reads m p.fs_info_sector 1 (λ k. 0) inside) (omega arith) h in
      let s : p.fs_info_sector + 0 ≡ p.fs_info_sector = omega arith in
      let t : 0 * config.bytes_per_sector + i ≡ i = omega arith in rw (s, t) at e

  write_bytes :
      (m : disc.Medium) (b : Buffer) (i : ℕ)
      → i < config.bytes_per_sector
      → sector_of (disc.write_sectors m p.fs_info_sector 1 b).medium i ≡ b i
  write_bytes m b i h =
      let e =
        contract.write_ok m p.fs_info_sector 1 b 0 i (healthy.writes m p.fs_info_sector 1 b inside)
          (omega arith) h in
      let s : p.fs_info_sector + 0 ≡ p.fs_info_sector = omega arith in
      let t : 0 * config.bytes_per_sector + i ≡ i = omega arith in rw (s, t) at e

  -- The medium after `_FAT_partition_writeFSinfo`.
  write_fs_info_lem :
      (v : Mounted disc config p)
      → is_fs_info (sector_of v.cache.medium) ≡ true
      → v.number_free_cluster < 2 ^ 32
      → v.number_last_alloc_cluster < 2 ^ 32
      → let b = sector_of (write_fs_info disc config p v).cache.medium in
        (is_fs_info b ≡ true)
        × (u8array_to_u32 b 0x1e8 ≡ v.number_free_cluster)
        × (u8array_to_u32 b 0x1ec ≡ v.number_last_alloc_cluster)
  unfolding write_fs_info
  write_fs_info_lem v sig free last =
      let m = v.cache.medium in
      let r = disc.read_sectors m p.fs_info_sector 1 (λ k. 0) in
      let ok = healthy.reads m p.fs_info_sector 1 (λ k. 0) inside in
      let b = put_counters r.buffer v.number_free_cluster v.number_last_alloc_cluster in
      let (e, e', same) =
        put_counters_lem r.buffer v.number_free_cluster v.number_last_alloc_cluster free last in
      let w = write_bytes r.medium b in
      let sig' : is_fs_info r.buffer ≡ true =
        is_fs_info-same r.buffer (sector_of m) (λ i lt. read_bytes m i (omega arith)) ∙ sig in
      rw (is_32, ok, sig')
        (
          is_fs_info-same _ r.buffer (λ i lt. w i (omega arith) ∙ same i lt) ∙ sig',
          u8array_to_u32-same _ b 0x1e8 (λ i lo hi. w i (omega arith)) ∙ e,
          u8array_to_u32-same _ b 0x1ec (λ i lo hi. w i (omega arith)) ∙ e',
        )

  -- On a FAT32 volume and a medium without faults whose FSinfo sector has its signatures, where the
  -- free clusters counted are neither 0 nor the mark for "unknown": what
  -- `_FAT_partition_writeFSinfo` stores, `_FAT_partition_readFSinfo` reads back, whatever the
  -- counters are by then.
  pub read_fs_info-write_fs_info :
      (v : Mounted disc config p) (free' last' : ℕ)
      → is_fs_info (sector_of v.cache.medium) ≡ true
      → 0 < v.number_free_cluster
      → v.number_free_cluster < 0xffffffff
      → v.number_last_alloc_cluster < 2 ^ 32
      → let v' = write_fs_info disc config p v in
        let v'' =
          read_fs_info disc config p
            (record v' { number_free_cluster = free'; number_last_alloc_cluster = last' }) in
        (v''.number_free_cluster ≡ v.number_free_cluster)
        × (v''.number_last_alloc_cluster ≡ v.number_last_alloc_cluster)
  unfolding read_fs_info
  read_fs_info-write_fs_info v free' last' sig some known last =
      let v' = write_fs_info disc config p v in
      let m = v'.cache.medium in
      let (sig', e, e') = write_fs_info_lem v sig (omega arith) last in
      let r = disc.read_sectors m p.fs_info_sector 1 (λ k. 0) in
      let ok = healthy.reads m p.fs_info_sector 1 (λ k. 0) inside in
      let same = read_bytes m in
      let s : is_fs_info r.buffer ≡ true =
        is_fs_info-same r.buffer (sector_of m) (λ i lt. same i (omega arith)) ∙ sig' in
      let f =
        u8array_to_u32-same r.buffer (sector_of m) 0x1e8 (λ i lo hi. same i (omega arith)) ∙ e in
      let l =
        u8array_to_u32-same r.buffer (sector_of m) 0x1ec (λ i lo hi. same i (omega arith)) ∙ e' in
      let t : (v.number_free_cluster == 0) ≡ false = ground arith in
      let u : (v.number_free_cluster == 0xffffffff) ≡ false = ground arith in
      rw (is_32, ok, s, f, t, u) (refl, l)
