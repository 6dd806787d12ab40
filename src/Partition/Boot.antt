-- ===== src/Partition/Boot.antt =====
-- The part of `_FAT_partition_constructor_buf` of source/partition.c that reads the boot sector.
pub mod Geometry
use libfat.Base.{
  ℕ, ◌+◌, ◌-◌, ◌*◌, ◌/◌, ◌%◌, ◌^◌, Bool, not, ◌&&◌, ◌||◌, bit_and, u32, sub32, ltb, ◌==◌,
  if◌then◌else◌, Buffer,
}
use libfat.BitOps.{u8array_to_u16, u8array_to_u32}
use libfat.Partition.State.{FsType, fs_fat12, fs_fat16, fs_fat32, Partition}

-- `undefined` is the division by a number of sectors per cluster of 0, which C leaves undefined.
pub data Boot : Type 0 where
  refused : Boot
  undefined : Boot
  mounted : Partition → Boot

abbrev pub min_sector_size : ℕ
min_sector_size = 512

abbrev pub max_sector_size : ℕ
max_sector_size = 4096

abbrev pub clusters_per_fat12 : ℕ
clusters_per_fat12 = 4085

abbrev pub clusters_per_fat16 : ℕ
clusters_per_fat16 = 65525

abbrev pub dir_entry_data_size : ℕ
dir_entry_data_size = 0x20

-- A 16-bit field with a 32-bit field in its place where it is 0.
abbrev pub field_or : Buffer → ℕ → ℕ → ℕ
field_or b small large =
    if u8array_to_u16 b small == 0 then u8array_to_u32 b large else u8array_to_u16 b small

abbrev pub sectors_per_fat : Buffer → ℕ
sectors_per_fat b = field_or b 0x16 0x24

abbrev pub number_of_sectors : Buffer → ℕ
number_of_sectors b = field_or b 0x13 0x20

abbrev pub bytes_per_sector : Buffer → ℕ
bytes_per_sector b = u8array_to_u16 b 0x0B

abbrev pub first_fat : Buffer → ℕ → ℕ
first_fat b start = u32 (start + u8array_to_u16 b 0x0E)

abbrev pub root_dir_start : Buffer → ℕ → ℕ
root_dir_start b start = u32 (first_fat b start + u32 (b 0x10 * sectors_per_fat b))

abbrev pub data_start : Buffer → ℕ → ℕ
data_start b start =
    u32 (root_dir_start b start + u8array_to_u16 b 0x11 * dir_entry_data_size / bytes_per_sector b)

-- The sectors before the data.
abbrev pub overhead : Buffer → ℕ → ℕ
overhead b start = sub32 (data_start b start) start

-- clusterCount
abbrev pub cluster_count : Buffer → ℕ → ℕ
cluster_count b start = sub32 (number_of_sectors b) (overhead b start) / b 0x0D

pub type_of : ℕ → FsType
type_of count =
    if ltb count clusters_per_fat12
    then fs_fat12
    else if ltb count clusters_per_fat16
    then fs_fat16
    else fs_fat32

abbrev pub is_fat32 : FsType → Bool
is_fat32 ty = elim ty [ fs_fat32 ↦ Bool.true | _ ↦ Bool.false ]

-- What the constructor stores, on a boot sector `b` at sector `start`.
pub volume_geometry : Buffer → ℕ → Bool → Partition
unfolding type_of
volume_geometry b start read_only =
    let count = cluster_count b start in
    let ty = type_of count in
    let info = if u8array_to_u16 b 0x30 == 0 then 1 else u8array_to_u16 b 0x30 in
    let active =
      if is_fat32 ty && bit_and (b 0x28) 0x80 == 0
      then u32 (first_fat b start + u32 (sectors_per_fat b * bit_and (b 0x28) 0x0F))
      else first_fat b start in
    record {
      filesys_type = ty;
      total_size =
          (number_of_sectors b + 2 ^ 64 - overhead b start) % 2 ^ 64 * bytes_per_sector b % 2 ^ 64;
      root_dir_start = root_dir_start b start;
      root_dir_cluster = if is_fat32 ty then u8array_to_u32 b 0x2C else 0;
      number_of_sectors = number_of_sectors b;
      data_start = data_start b start;
      bytes_per_sector = bytes_per_sector b;
      sectors_per_cluster = b 0x0D;
      bytes_per_cluster = u32 (bytes_per_sector b * b 0x0D);
      fs_info_sector = u32 (start + info);
      fat = record {
        fat_start = active;
        sectors_per_fat = sectors_per_fat b;
        last_cluster = u32 (count + 1);
      };
      read_only = read_only;
    }

unfoldable pub read_boot_sector : Buffer → ℕ → Bool → Boot
unfolding volume_geometry
read_boot_sector b start read_only =
    if ltb (bytes_per_sector b) min_sector_size || ltb max_sector_size (bytes_per_sector b)
    then refused
    else if b 0x0D == 0
    then undefined
    else mounted (volume_geometry b start read_only)
