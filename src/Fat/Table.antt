-- ===== src/Fat/Table.antt =====
-- The table that the bytes of a FAT spell, as a function from the cluster to the cluster that it
-- links to: what the entry functions of source/file_allocation_table.c are to read and write.
use libfat.Base.{ℕ, ◌+◌, ◌*◌, ◌/◌, ◌%◌, ◌^◌, ◌≤◌, ◌<◌, ◌≡◌, leb, ◌==◌, if◌then◌else◌}
use libfat.Cache.Invariant.{Sectors}
use libfat.Partition.State.{FsType, fs_unknown, fs_fat12, fs_fat16, fs_fat32, Partition}
use libfat.Fat.Entry.{cluster_eof, cluster_free}

-- Byte `a` of the table.
abbrev pub fat_byte : Sectors → Partition → ℕ → ℕ
fat_byte sectors p a = sectors (p.fat.fat_start + a / p.bytes_per_sector) (a % p.bytes_per_sector)

-- The first byte of an entry, and how many bytes it touches.
abbrev pub first_byte : FsType → ℕ → ℕ
first_byte fs_unknown cluster = 0
first_byte fs_fat12 cluster = cluster * 3 / 2
first_byte fs_fat16 cluster = cluster * 2
first_byte fs_fat32 cluster = cluster * 4

abbrev pub entry_bytes : FsType → ℕ
entry_bytes fs_unknown = 0
entry_bytes fs_fat12 = 2
entry_bytes fs_fat16 = 2
entry_bytes fs_fat32 = 4

-- The number that an entry spells: 12, 16 or 32 bits.
abbrev pub raw_entry : FsType → (ℕ → ℕ) → ℕ → ℕ
raw_entry fs_unknown b cluster = 0
raw_entry fs_fat12 b cluster =
    let both = b (cluster * 3 / 2) + b (cluster * 3 / 2 + 1) * 256 in
    if cluster % 2 == 0 then both % 4096 else both / 16
raw_entry fs_fat16 b cluster = b (cluster * 2) + b (cluster * 2 + 1) * 256
raw_entry fs_fat32 b cluster =
    b (cluster * 4)
    + b (cluster * 4 + 1) * 256
    + b (cluster * 4 + 2) * 65536
    + b (cluster * 4 + 3) * 16777216

-- From here on an entry marks the end of a chain (or a bad cluster).
abbrev pub eof_from : FsType → ℕ
eof_from fs_unknown = 0
eof_from fs_fat12 = 0x0FF7
eof_from fs_fat16 = 0xFFF7
eof_from fs_fat32 = 0x0FFFFFF7

abbrev pub link : FsType → ℕ → ℕ
link ty raw = if leb (eof_from ty) raw then cluster_eof else raw

unfoldable pub table : Sectors → Partition → ℕ → ℕ
table sectors p cluster =
    if cluster == cluster_free
    then cluster_free
    else link p.filesys_type (raw_entry p.filesys_type (fat_byte sectors p) cluster)

-- How many values an entry can take.
abbrev pub entry_values : FsType → ℕ
entry_values fs_unknown = 1
entry_values fs_fat12 = 4096
entry_values fs_fat16 = 65536
entry_values fs_fat32 = 2 ^ 32

abbrev pub IsKnown : FsType → Type 0
IsKnown fs_unknown = ⊥
IsKnown _ = Unit

-- The entry of a cluster lies inside the table.
pub record HasEntry (p : Partition) (cluster : ℕ) : Type 0 where
  pub inside :
      first_byte p.filesys_type cluster + entry_bytes p.filesys_type
      ≤ p.fat.sectors_per_fat * p.bytes_per_sector
  pub small : cluster < 2 ^ 28

-- A table of a known type, inside a store of `size` sectors, with an entry for every cluster.
pub record IsFat (p : Partition) (size : ℕ) : Type 0 where
  pub known : IsKnown p.filesys_type
  pub some_bytes : 4 ≤ p.bytes_per_sector
  pub four : p.bytes_per_sector % 4 ≡ 0
  pub region : p.fat.fat_start + p.fat.sectors_per_fat ≤ size
  pub no_wrap : size < 2 ^ 32
  pub entries : HasEntry p p.fat.last_cluster
  pub numbers : p.fat.last_cluster < eof_from p.filesys_type
