-- ===== src/Directory/Entry.antt =====
-- DIR_ENTRY, and the functions of source/directory.c on the 32 bytes of an entry.
pub mod Root
use libfat.Base.{
  ℕ, zero, suc, ◌+◌, ◌-◌, ◌*◌, ◌/◌, ◌%◌, ◌^◌, Bool, true, false, not, ◌&&◌, ◌||◌, bit_and, bit_or,
  u16, u32, leb, ltb, ◌==◌, if◌then◌else◌, Buffer, memset,
}
use libfat.BitOps.{u8array_to_u16, u16_to_u8array, store}
use libfat.Partition.State.{Partition}
use libfat.Partition.Boot.{is_fat32}

pub record DirEntryPosition : Type 0 where
  pub cluster : ℕ
  pub sector : ℕ
  -- An int32_t as its 32 bits: -1 is 2 ^ 32 - 1.
  pub offset : ℕ

pub record DirEntry : Type 0 where
  pub entry_data : Buffer
  pub data_start : DirEntryPosition
  pub data_end : DirEntryPosition
  pub filename : Buffer

abbrev pub dir_entry_last : ℕ
dir_entry_last = 0x00

abbrev pub dir_entry_free : ℕ
dir_entry_free = 0xE5

abbrev pub dir_entry_data_size : ℕ
dir_entry_data_size = 0x20

abbrev pub fat16_root_dir_cluster : ℕ
fat16_root_dir_cluster = 0

abbrev pub attrib_dir : ℕ
attrib_dir = 0x10

-- tolower of <ctype.h>, in the C locale.
abbrev pub tolower : ℕ → ℕ
tolower c = if leb 0x41 c && leb c 0x5A then c + 32 else c

-- Copy characters up to a blank, from entryData[src] to destName[i]: the name and where it ends.
pub copy_name : ℕ → Buffer → ℕ → Bool → Buffer → ℕ → Buffer × ℕ
copy_name zero entry_data src lower dest i = (dest, i)
copy_name (suc left) entry_data src lower dest i =
    let c = entry_data src in
    let rest =
      copy_name left entry_data (src + 1) lower (store dest i (if lower then tolower c else c))
        (i + 1) in
    if c == 0x20 then (dest, i) else rest

pub alias_name : Buffer → Buffer → Buffer
unfolding copy_name
alias_name entry_data dest =
    let (base, i) = copy_name 8 entry_data 0 (not (bit_and (entry_data 0x0C) 0x08 == 0)) dest 0 in
    let (full, j) =
      copy_name 3 entry_data 0x08 (not (bit_and (entry_data 0x0C) 0x10 == 0)) (store base i 0x2E)
        (i + 1) in
    if entry_data 0x08 == 0x20 then store base i 0 else store full j 0

pub entry_get_alias : Buffer → Buffer → Bool × Buffer
unfolding alias_name
entry_get_alias entry_data dest_name =
    let d = store dest_name 0 0 in
    let dot = store d 0 0x2E in
    let result =
      if entry_data 0 == dir_entry_free
      then d
      else if entry_data 0 == 0x2E
      then (if entry_data 1 == 0x2E then store (store dot 1 0x2E) 2 0 else store dot 1 0)
      else alias_name entry_data d in
    (not (result 0 == 0), result)

unfoldable pub entry_get_cluster : Partition → Buffer → ℕ
entry_get_cluster p entry_data =
    if is_fat32 p.filesys_type
    then u32 (bit_or (u8array_to_u16 entry_data 0x1A) (u8array_to_u16 entry_data 0x14 * 2 ^ 16))
    else u8array_to_u16 entry_data 0x1A

-- The bytes of the root's entry but for its cluster.
abbrev pub root_name : Buffer
root_name =
    let blank = memset (memset (λ i. 0) 0 0 dir_entry_data_size) 0 0x20 11 in
    store (store blank 0 0x2E) 0x0B attrib_dir

pub get_root_entry : Partition → Bool × DirEntry
get_root_entry p =
    let start : DirEntryPosition = record { cluster = 0; sector = 0; offset = 0 } in
    (
      true,
      record {
        entry_data =
            u16_to_u8array (u16_to_u8array root_name 0x1A p.root_dir_cluster) 0x14
              (p.root_dir_cluster / 2 ^ 16);
        data_start = start;
        data_end = start;
        filename = store (λ i. 0) 0 0x2E;
      },
    )

-- The checksum of a short name: rotate right and add, on the bytes from `i` on.
pub alias_checksum : ℕ → Buffer → ℕ → ℕ → ℕ
alias_checksum zero entry_data i sum = sum
alias_checksum (suc left) entry_data i sum =
    alias_checksum left entry_data (i + 1)
      (((if bit_and sum 1 == 0 then 0 else 0x80) + sum / 2 + entry_data i) % 256)
