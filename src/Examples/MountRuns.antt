-- ===== src/Examples/MountRuns.antt =====
-- Finding and mounting volumes in memory.
use libfat.Base.{ℕ, ◌-◌, ◌^◌, ◌<◌, ◌≡◌, ◌⊎◌, true, false, arith, refl, if◌then◌else◌, ◌==◌, Buffer}
use libfat.BitOps.{u8array_to_u16, u8array_to_u32}
use libfat.Disc.Ram.{ram, ram_contract, ram-IsHealthy}
use libfat.Partition.State.{fs_fat32, Partition}
use libfat.Partition.Find.{is_valid_mbr, find_first_valid_partition, has_bytes}
use libfat.Partition.Find.Valid.{find_first_valid_partition_lem}
use libfat.Partition.Boot.{refused, undefined, mounted, read_boot_sector, bytes_per_sector}
use libfat.Partition.Boot.Geometry.{Accepted, read_boot_sector_lem}
use libfat.Partition.FsInfo.{Mounted, read_fs_info, write_fs_info, is_fs_info}
use libfat.Partition.FsInfo.RoundTrip.{read_fs_info-write_fs_info}
use libfat.Partition.Mount.{crash, mount}
use libfat.Partition.Mount.Crash.{mount-crash}
use libfat.Examples.Setup.{two_pages, small_volume}

-- A volume of 63 sectors: one reserved, a table of one, a root directory of one.
abbrev boot_sector : Buffer
boot_sector i =
    if i == 0x0C
    then 2
    else if i == 0x0D
    then 1
    else if i == 0x0E
    then 1
    else if i == 0x10
    then 1
    else if i == 0x11
    then 16
    else if i == 0x13
    then 63
    else if i == 0x16
    then 1
    else if i == 0x36
    then 0x46
    else if i == 0x37
    then 0x41
    else if i == 0x38
    then 0x54
    else if i == 0x1FE
    then 0x55
    else if i == 0x1FF
    then 0xAA
    else 0

abbrev blank : ℕ → ℕ → ℕ
blank s o = 0

find_first_valid_partition_example :
    let s = find_first_valid_partition ram blank (λ i. 0) in
    (s.lba ≡ 0) ⊎ (is_valid_mbr s.buffer ≡ true)
find_first_valid_partition_example = find_first_valid_partition_lem ram blank (λ i. 0)

read_boot_sector_example :
    let r = read_boot_sector boot_sector 0 false in
    ((r ≡ refused) × ((bytes_per_sector boot_sector < 512) ⊎ (4096 < bytes_per_sector boot_sector)))
    ⊎ (((r ≡ undefined) × (boot_sector 0x0D ≡ 0))
        ⊎ ((p : Partition) × (r ≡ mounted p) × Accepted boot_sector 0 p))
unfolding u8array_to_u16 u8array_to_u32
read_boot_sector_example =
    read_boot_sector_lem boot_sector 0 false (omega arith) (omega arith) (omega arith) (omega arith)

-- A FAT32 volume whose FSinfo sector is sector 1.
abbrev large_volume : Partition
large_volume = record small_volume { filesys_type = fs_fat32; fs_info_sector = 1 }

abbrev info_image : ℕ → ℕ → ℕ
info_image s o =
    if o == 0
    then 0x52
    else if o == 1
    then 0x52
    else if o == 2
    then 0x61
    else if o == 3
    then 0x41
    else if o == 0x1e4
    then 0x72
    else if o == 0x1e5
    then 0x72
    else if o == 0x1e6
    then 0x41
    else if o == 0x1e7
    then 0x61
    else 0

abbrev counted : Mounted ram two_pages large_volume
counted = record {
  first_free = 2;
  number_free_cluster = 7;
  number_last_alloc_cluster = 3;
  cwd_cluster = 0;
  cache = record {
    cache_entries = λ i. record {
      sector = 2 ^ 32 - 1;
      count = 0;
      last_access = 0;
      dirty = false;
      cache = λ k. 0;
    };
    medium = info_image;
    access_counter = 0;
  };
}

fs_info_example :
    let v' = write_fs_info ram two_pages large_volume counted in
    let v'' =
      read_fs_info ram two_pages large_volume
        (record v' { number_free_cluster = 0; number_last_alloc_cluster = 0 }) in
    (v''.number_free_cluster ≡ 7) × (v''.number_last_alloc_cluster ≡ 3)
unfolding is_fs_info has_bytes
fs_info_example =
    read_fs_info-write_fs_info ram two_pages large_volume 64 ram_contract (ram-IsHealthy 64)
      (omega arith) refl (omega arith) counted 0 0 refl (omega arith) (omega arith) (omega arith)

abbrev no_clusters : ℕ → ℕ → ℕ
no_clusters s o = if o == 0x0D then 0 else boot_sector o

mount-crash_example : mount ram no_clusters (λ i. 9) 2 8 0 (λ i k. 0) 0 ≡ crash
unfolding u8array_to_u16 has_bytes
mount-crash_example =
    mount-crash ram no_clusters (λ i. 9) 2 8 0 (λ i k. 0) 0 refl refl refl refl (omega arith)
      (omega arith) refl
