-- ===== src/File/Sync/Entry.antt =====
-- The directory entry that `_FAT_syncToDisc` writes: what it says of the file, and that it is bytes.
use libfat.Base.{
  ℕ, ◌+◌, ◌/◌, ◌^◌, ◌<◌, ◌≡◌, arith, refl, bit_and-bit_or, ◌∙◌, u16, bit_or, if◌then◌else◌, Buffer,
}
use libfat.BitOps
use libfat.BitOps.{u8array_to_u16, u16_to_u8array, u8array_to_u32, u32_to_u8array}
use libfat.BitOps.RoundTrip.{u8array-u8array}
use libfat.Partition.State.{Partition}
use libfat.Partition.Boot.{is_fat32}
use libfat.Directory.Entry.{entry_get_cluster}
use libfat.Directory.Entry.Root.{u8array_to_u16-same, cluster_of_halves}
use libfat.FileTime.{get_time_from_rtc, get_date_from_rtc}
use libfat.File.State.{FileStruct}
use libfat.File.Sync.{Clock, synced_entry, attrib_arch}

pub u8array_to_u32-same :
    (b c : Buffer) (o : ℕ)
    → b o ≡ c o
    → b (o + 1) ≡ c (o + 1)
    → b (o + 2) ≡ c (o + 2)
    → b (o + 3) ≡ c (o + 3)
    → u8array_to_u32 b o ≡ u8array_to_u32 c o
unfolding u8array_to_u32
u8array_to_u32-same b c o e e1 e2 e3 = rw (e, e1, e2, e3) refl

pub entry_get_cluster-same :
    (p : Partition) (b c : Buffer)
    → ((k : ℕ) → k < 32 → b k ≡ c k)
    → entry_get_cluster p b ≡ entry_get_cluster p c
unfolding entry_get_cluster
entry_get_cluster-same p b c same =
    let low = u8array_to_u16-same b c 0x1A (same 0x1A (omega arith)) (same 0x1B (omega arith)) in
    let high = u8array_to_u16-same b c 0x14 (same 0x14 (omega arith)) (same 0x15 (omega arith)) in
    rw (low, high) refl

module _ (now : Clock) (file : FileStruct) where
  -- The entry says the size and the first cluster of the file, and when it was modified.
  pub synced_entry_lem :
      (p : Partition) (old : Buffer)
      → file.filesize < 2 ^ 32
      → file.start_cluster < (if is_fat32 p.filesys_type then 2 ^ 32 else 65536)
      → let e = synced_entry now file old in
        (u8array_to_u32 e 0x1C ≡ file.filesize)
        × (entry_get_cluster p e ≡ file.start_cluster)
        × (u8array_to_u16 e 0x16 ≡ u16 (get_time_from_rtc now.time))
        × (u8array_to_u16 e 0x18 ≡ u16 (get_date_from_rtc now.date))
  unfolding synced_entry u16_to_u8array u32_to_u8array
  synced_entry_lem p old small cluster =
      let e = synced_entry now file old in
      let c = file.start_cluster in
      let size = u32_to_u8array old 0x1C file.filesize in
      let low = u16_to_u8array size 0x1A c in
      let high = u16_to_u8array low 0x14 (c / 2 ^ 16) in
      let time = u16_to_u8array high 0x16 (get_time_from_rtc now.time) in
      let date = u16_to_u8array time 0x18 (get_date_from_rtc now.date) in
      (
        u8array_to_u32-same e size 0x1C refl refl refl refl
            ∙ (u8array-u8array old 0x1C file.filesize).1
            ∙ omega arith,
        cluster_of_halves p e c cluster
            (u8array_to_u16-same e low 0x1A refl refl ∙ (u8array-u8array size 0x1A c).0)
            (u8array_to_u16-same e high 0x14 refl refl ∙ (u8array-u8array low 0x14 (c / 2 ^ 16)).0),
        u8array_to_u16-same e time 0x16 refl refl
            ∙ (u8array-u8array high 0x16 (get_time_from_rtc now.time)).0,
        u8array_to_u16-same e date 0x18 refl refl
            ∙ (u8array-u8array time 0x18 (get_date_from_rtc now.date)).0,
      )

  pub synced_attributes :
      (old : Buffer)
      → old 0x0B < 256
      → synced_entry now file old 0x0B ≡ bit_or (old 0x0B) attrib_arch
  unfolding synced_entry u16_to_u8array u32_to_u8array
  synced_attributes old h = let (_, _, small) = bit_and-bit_or (old 0x0B) h in small

  store_byte : (b : Buffer) (i v k : ℕ) → b k < 256 → BitOps.store b i v k < 256
  store_byte b i v k h = ground arith

  u16_byte : (b : Buffer) (i v k : ℕ) → b k < 256 → u16_to_u8array b i v k < 256
  unfolding u16_to_u8array
  u16_byte b i v k h = ground (arith, h)

  u32_byte : (b : Buffer) (i v k : ℕ) → b k < 256 → u32_to_u8array b i v k < 256
  unfolding u32_to_u8array
  u32_byte b i v k h = ground (arith, h)

  pub synced_entry_byte : (old : Buffer) (k : ℕ) → old k < 256 → synced_entry now file old k < 256
  unfolding synced_entry
  synced_entry_byte old k h =
      let size = u32_to_u8array old 0x1C file.filesize in
      let low = u16_to_u8array size 0x1A file.start_cluster in
      let high = u16_to_u8array low 0x14 (file.start_cluster / 2 ^ 16) in
      let time = u16_to_u8array high 0x16 (get_time_from_rtc now.time) in
      let modified = u16_to_u8array time 0x18 (get_date_from_rtc now.date) in
      let access = u16_to_u8array modified 0x12 (get_date_from_rtc now.access) in
      let h1 = u16_byte size 0x1A file.start_cluster k (u32_byte old 0x1C file.filesize k h) in
      let h2 = u16_byte low 0x14 (file.start_cluster / 2 ^ 16) k h1 in
      let h3 = u16_byte high 0x16 (get_time_from_rtc now.time) k h2 in
      let h4 =
        u16_byte modified 0x12 (get_date_from_rtc now.access) k
          (u16_byte time 0x18 (get_date_from_rtc now.date) k h3) in
      store_byte access 0x0B (bit_or (access 0x0B) attrib_arch) k h4
