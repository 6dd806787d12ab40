-- ===== src/Directory/Entry/Root.antt =====
-- The entry that `_FAT_directory_getRootEntry` makes up.
use libfat.Base.{
  ℕ, ◌+◌, ◌/◌, ◌^◌, ◌<◌, ◌≡◌, inl, inr, arith, refl, ◌∙◌, u16, bit_or_low, Bool-cases,
  if◌then◌else◌, Buffer,
}
use libfat.BitOps.{u8array_to_u16, u16_to_u8array}
use libfat.BitOps.RoundTrip.{u8array-u8array}
use libfat.Partition.State.{Partition}
use libfat.Partition.Boot.{is_fat32}
use libfat.Directory.Entry.{entry_get_cluster, get_root_entry, root_name}

pub u8array_to_u16-same :
    (b c : Buffer) (o : ℕ)
    → b o ≡ c o
    → b (o + 1) ≡ c (o + 1)
    → u8array_to_u16 b o ≡ u8array_to_u16 c o
unfolding u8array_to_u16
u8array_to_u16-same b c o e e' = rw (e, e') refl

-- Both halves of a cluster number, as the two writes of `_FAT_directory_getRootEntry` leave them.
halves :
    (b : Buffer) (c : ℕ)
    → let d = u16_to_u8array (u16_to_u8array b 0x1A c) 0x14 (c / 2 ^ 16) in
      (u8array_to_u16 d 0x1A ≡ u16 c) × (u8array_to_u16 d 0x14 ≡ u16 (c / 2 ^ 16))
halves b c =
    let one = u8array-u8array b 0x1A c in
    let two = u8array-u8array (u16_to_u8array b 0x1A c) 0x14 (c / 2 ^ 16) in
    (
      u8array_to_u16-same _ (u16_to_u8array b 0x1A c) 0x1A (two.2 0x1A (inr (omega arith)))
            (two.2 0x1B (inr (omega arith)))
          ∙ one.0,
      two.0,
    )

-- A cluster number from its halves.
pub cluster_of_halves :
    (p : Partition) (d : Buffer) (c : ℕ)
    → c < (if is_fat32 p.filesys_type then 2 ^ 32 else 65536)
    → u8array_to_u16 d 0x1A ≡ u16 c
    → u8array_to_u16 d 0x14 ≡ u16 (c / 2 ^ 16)
    → entry_get_cluster p d ≡ c
unfolding entry_get_cluster
cluster_of_halves p d c h low high = elim (Bool-cases (is_fat32 p.filesys_type)) [
  | inl wide ↦
      let small : c < 2 ^ 32 = rw wide at h in
      rw (wide, low, high) (omega (arith, bit_or_low 16 (u16 c) (u16 (c / 2 ^ 16)) (omega arith)))
  | inr narrow ↦ let small : c < 65536 = rw narrow at h in rw (narrow, low) (omega arith)
]

-- `_FAT_directory_entryGetCluster` of the entry that `_FAT_directory_getRootEntry` makes is the
-- root directory's cluster: on FAT32 for every 32-bit number, else for every 16-bit number. The
-- entry counts as a directory in use.
pub entry_get_cluster-get_root_entry :
    (p : Partition)
    → p.root_dir_cluster < (if is_fat32 p.filesys_type then 2 ^ 32 else 65536)
    → let e = (get_root_entry p).1 in
      (entry_get_cluster p e.entry_data ≡ p.root_dir_cluster)
      × (e.entry_data 0x0B ≡ 0x10)
      × (e.entry_data 0 ≡ 0x2E)
unfolding get_root_entry
entry_get_cluster-get_root_entry p h =
    let b = root_name in
    let c = p.root_dir_cluster in
    let (low, high) = halves b c in
    let kept = λ (i : ℕ) (lt : i < 0x14).
      (u8array-u8array (u16_to_u8array b 0x1A c) 0x14 (c / 2 ^ 16)).2 i (inl lt)
      ∙ (u8array-u8array b 0x1A c).2 i (inl (omega arith)) in
    (cluster_of_halves p _ c h low high, kept 0x0B (omega arith), kept 0 (omega arith))
