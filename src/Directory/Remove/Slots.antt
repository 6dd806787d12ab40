-- ===== src/Directory/Remove/Slots.antt =====
-- Removing an entry of one slot, which is what a name without a long form has.
use libfat.Base.{
  ℕ, suc, ◌+◌, ◌-◌, ◌/◌, ◌≤◌, ◌<◌, ◌≡◌, inl, inr, Bool, true, false, not, ◌&&◌, arith, refl, sym,
  ◌∙◌, u32, sub32, leb, Bool-cases, ◌==◌, if◌then◌else◌, Buffer, Option, some,
}
use libfat.BitOps
use libfat.Cache.Invariant.{Sectors}
use libfat.Cache.Sector.Partial.{put_bytes}
use libfat.Store.{SectorStore, IsStore}
use libfat.Partition.State.{Partition, Volume}
use libfat.Fat.Entry.{cluster_eof}
use libfat.Fat.Entry.Places.{has_entry}
use libfat.Fat.Entry.Next.{next_cluster-table}
use libfat.Fat.Table.{IsFat, table}
use libfat.Directory.Entry.{
  DirEntry, DirEntryPosition, dir_entry_free, dir_entry_data_size, fat16_root_dir_cluster,
}
use libfat.Directory.Position.{
  Step, next_dir_cluster, increment_dir_entry_position, entry_sector, entry_offset,
}
use libfat.Directory.Remove.{free_entry, remove_from, remove_entry, same_position}

-- The sectors with the entry at a position marked as free.
abbrev pub marked : Sectors → Partition → DirEntryPosition → Sectors
marked sectors p at s o =
    if s == entry_sector p at && o == entry_offset at then dir_entry_free else sectors s o

freed_byte : (b : Buffer) (k : ℕ) → b k < 256 → BitOps.store b 0 dir_entry_free k < 256
freed_byte b k h = ground arith

-- Writing back 32 bytes with the first one changed changes only that.
same_bytes :
    (sectors : Sectors) (b : Buffer) (sector offset : ℕ)
    → ((k : ℕ) → k < 32 → b k ≡ sectors sector (offset + k))
    → (s o : ℕ)
    → put_bytes sectors sector offset 32 (BitOps.store b 0 0xE5) s o
      ≡ (if s == sector && o == offset then 0xE5 else sectors s o)
same_bytes sectors b sector offset h s o = elim (Bool-cases (leb offset o)) [
  | inl above ↦
      let back : offset + (o - offset) ≡ o = ground (arith, above) in
      ground (arith, h (o - offset), back)
  | inr below ↦ ground arith
]

module _ (store : SectorStore) (size : ℕ) (p : Partition)
    (laws : IsStore store size p.bytes_per_sector) where
  open laws use {Holds}

  -- The store holds sectors that agree with these.
  abbrev pub HoldsSame : store.State → Sectors → Type 0
  HoldsSame st sectors = (held : Sectors) × Holds st held × ((s o : ℕ) → held s o ≡ sectors s o)

  free_entry-marked :
      (v : Volume store) (sectors : Sectors) (b : Buffer) (at : DirEntryPosition)
      → Holds v.cache sectors
      → entry_sector p at < size
      → entry_offset at + dir_entry_data_size ≤ p.bytes_per_sector
      → HoldsSame (free_entry store p v b at).0.cache (marked sectors p at)
  unfolding free_entry
  free_entry-marked v sectors b at h inside fits =
      let r =
        store.read_partial_sector v.cache b (entry_sector p at) (entry_offset at)
          dir_entry_data_size in
      let (ok, bytes, h') =
        laws.reads_part v.cache sectors b (entry_sector p at) (entry_offset at) dir_entry_data_size
          h inside fits in
      let freed = BitOps.store r.buffer 0 dir_entry_free in
      let small = λ (k : ℕ) (lt : k < dir_entry_data_size). freed_byte r.buffer k (
        rw (← bytes k lt) at
          (laws.bytes v.cache sectors h (entry_sector p at) (entry_offset at + k))) in
      let (ok', h'') =
        laws.writes_part r.state sectors freed (entry_sector p at) (entry_offset at)
          dir_entry_data_size h' small inside fits in
      (_, h'', same_bytes sectors r.buffer (entry_sector p at) (entry_offset at) bytes)

and_false : (b : Bool) → (b && false) ≡ false
and_false true = refl
and_false false = refl

-- Is a position the last slot of its directory, where `links` is the table?
abbrev pub is_last_slot : Partition → (ℕ → ℕ) → DirEntryPosition → Bool
is_last_slot p links at =
    u32 (at.offset + 1) == p.bytes_per_sector / dir_entry_data_size
    && (if at.cluster == fat16_root_dir_cluster
        then u32 (at.sector + 1) == sub32 p.data_start p.root_dir_start
        else u32 (at.sector + 1) == p.sectors_per_cluster && links at.cluster == cluster_eof)

module _ (store : SectorStore) (size : ℕ) (p : Partition)
    (laws : IsStore store size p.bytes_per_sector) (fat : IsFat p size) where
  open laws use {Holds}

  -- A step without extension ends, fails only at the last slot, and keeps what the store holds.
  pub record Stepped (held : Sectors) (at : DirEntryPosition) (r : Option (Step store p))
      : Type 0 where
    pub step : Step store p
    pub ends : r ≡ some step
    pub flag : step.ok ≡ not (is_last_slot p (table held p) at)
    pub holds : Holds step.volume.cache held

  increment-Stepped :
      (v : Volume store) (held : Sectors) (at : DirEntryPosition)
      → Holds v.cache held
      → at.cluster ≤ p.fat.last_cluster
      → Stepped held at (increment_dir_entry_position store p v at false)
  unfolding increment_dir_entry_position next_dir_cluster
  increment-Stepped v held at h in_range =
      let entry = has_entry p size fat at.cluster in_range in
      let (e, h') = next_cluster-table store size p laws fat v.cache held at.cluster h entry in
      elim (Bool-cases (u32 (at.offset + 1) == p.bytes_per_sector / dir_entry_data_size)) [
        | inr within ↦
            rw within (record { step = _; ends = refl; flag = rw within refl; holds = h })
        | inl wraps ↦ elim (Bool-cases (at.cluster == 0)) [
          | inl root ↦
              let t : (u32 (at.sector + 1) == p.sectors_per_cluster && not (at.cluster == 0))
                  ≡ false =
                rw root (and_false _) in
              elim (Bool-cases (u32 (at.sector + 1) == sub32 p.data_start p.root_dir_start)) [
                | inl ends ↦
                    rw (wraps, t, root, ends)
                      (record {
                        step = _;
                        ends = refl;
                        flag = rw (wraps, root, ends) refl;
                        holds = h;
                      })
                | inr more ↦
                    rw (wraps, t, root, more)
                      (record {
                        step = _;
                        ends = refl;
                        flag = rw (wraps, root, more) refl;
                        holds = h;
                      })
              ]
          | inr chain ↦ elim (Bool-cases (u32 (at.sector + 1) == p.sectors_per_cluster)) [
            | inr more ↦
                rw (wraps, more, chain)
                  (record { step = _; ends = refl; flag = rw (wraps, chain, more) refl; holds = h })
            | inl over ↦ elim (Bool-cases (table held p at.cluster == cluster_eof)) [
              | inl ends ↦
                  rw (wraps, over, chain, e, ends)
                    (record {
                      step = _;
                      ends = refl;
                      flag = rw (wraps, chain, over, ends) refl;
                      holds = h';
                    })
              | inr more ↦
                  rw (wraps, over, chain, e, more)
                    (record {
                      step = _;
                      ends = refl;
                      flag = rw (wraps, chain, over, more) refl;
                      holds = h';
                    })
            ]
          ]
        ]
      ]

  -- What removing an entry of one slot leaves.
  pub record Removed (sectors : Sectors) (at : DirEntryPosition) (r : Option (Bool × Volume store))
      : Type 0 where
    pub held : Sectors
    pub ok : Bool
    pub volume : Volume store
    pub ends : r ≡ some (ok, volume)
    pub holds : Holds volume.cache held
    pub freed : (s o : ℕ) → held s o ≡ marked sectors p at s o
    pub flag : ok ≡ not (is_last_slot p (table held p) at)

  -- `_FAT_directory_removeEntry` of an entry of one slot, at a cluster of the partition or in a fixed
  -- root directory: after one round it has ended, the first byte of the slot is the mark of a free
  -- entry, and no other byte changed. It returns false where that slot is the last one of its
  -- directory, although the entry is gone, and true for every other slot.
  pub remove_entry-Removed :
      (v : Volume store) (sectors : Sectors) (entry : DirEntry) (fuel : ℕ)
      → Holds v.cache sectors
      → same_position entry.data_start entry.data_end ≡ true
      → entry.data_start.cluster ≤ p.fat.last_cluster
      → entry_sector p entry.data_start < size
      → entry_offset entry.data_start + dir_entry_data_size ≤ p.bytes_per_sector
      → Removed sectors entry.data_start (remove_entry store p (suc fuel) v entry)
  unfolding remove_entry remove_from
  remove_entry-Removed v sectors entry fuel h one in_range inside fits =
      let at = entry.data_start in
      let (held, h', same) =
        free_entry-marked store size p laws v sectors (λ i. 0) at h inside fits in
      let s = increment-Stepped (free_entry store p v (λ i. 0) at).0 held at h' in_range in
      elim (Bool-cases s.step.ok) [
        | inl ok ↦
            rw (s.ends, ok, one)
              (record {
                held = held;
                ok = true;
                volume = s.step.volume;
                ends = refl;
                holds = s.holds;
                freed = same;
                flag = sym ok ∙ s.flag;
              })
        | inr last ↦
            rw (s.ends, last)
              (record {
                held = held;
                ok = false;
                volume = s.step.volume;
                ends = refl;
                holds = s.holds;
                freed = same;
                flag = sym last ∙ s.flag;
              })
      ]
