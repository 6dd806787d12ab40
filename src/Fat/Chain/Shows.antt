-- ===== src/Fat/Chain/Shows.antt =====
-- The table as a function: what the chain functions see of the volume.
use libfat.Base.{ℕ, ◌+◌, ◌%◌, ◌≤◌, ◌<◌, ◌≡◌, ◌⊎◌, arith, ◌==◌, if◌then◌else◌, ◌∙◌}
use libfat.Cache.Invariant.{Sectors}
use libfat.Store.{SectorStore, IsStore}
use libfat.Partition.State.{FsType, fs_unknown, fs_fat12, fs_fat16, fs_fat32, Partition}
use libfat.Fat.Entry.{next_cluster, write_fat_entry, cluster_first, cluster_eof}
use libfat.Fat.Table.{table, link, IsFat, IsKnown, entry_values, eof_from}
use libfat.Fat.Entry.Places.{has_entry}
use libfat.Fat.Entry.Next.{next_cluster-table}
use libfat.Fat.Entry.Write.{write_fat_entry-table}

abbrev pub Links : Type 0
Links = ℕ → ℕ

abbrev pub set : Links → ℕ → ℕ → Links
set links c v d = if d == c then v else links d

-- The values that the chain functions write.
abbrev pub IsLink : Partition → ℕ → Type 0
IsLink p v = (v ≤ p.fat.last_cluster) ⊎ (v ≡ cluster_eof)

link_value_of :
    (ty : FsType) (last v : ℕ)
    → IsKnown ty
    → last < eof_from ty
    → (v ≤ last) ⊎ (v ≡ cluster_eof)
    → link ty (v % entry_values ty) ≡ v
link_value_of fs_unknown last v known h l = absurd known
link_value_of fs_fat12 last v known h l = ground arith
link_value_of fs_fat16 last v known h l = ground arith
link_value_of fs_fat32 last v known h l = ground arith

module _ (store : SectorStore) (size : ℕ) (p : Partition)
    (laws : IsStore store size p.bytes_per_sector) (fat : IsFat p size) (base : Sectors) where
  open laws use {Holds}

  -- The store holds sectors that spell `links`, and that are those of `base` outside the table.
  pub record Shows (st : store.State) (links : Links) : Type 0 where
    pub sectors : Sectors
    pub holds : Holds st sectors
    pub spells : (d : ℕ) → table sectors p d ≡ links d
    pub outside :
        (s o : ℕ)
        → (s < p.fat.fat_start) ⊎ (p.fat.fat_start + p.fat.sectors_per_fat ≤ s)
        → sectors s o ≡ base s o

  pub next-Shows :
      (st : store.State) (links : Links) (cluster : ℕ)
      → Shows st links
      → cluster ≤ p.fat.last_cluster
      → let r = next_cluster store p st cluster in (r.0 ≡ links cluster) × Shows r.1 links
  next-Shows st links cluster s h =
      let (e, holds) =
        next_cluster-table store size p laws fat st s.sectors cluster s.holds
          (has_entry p size fat cluster h) in
      (
        e ∙ s.spells cluster,
        record { sectors = s.sectors; holds = holds; spells = s.spells; outside = s.outside },
      )

  pub write-Shows :
      (st : store.State) (links : Links) (cluster value : ℕ)
      → Shows st links
      → cluster_first ≤ cluster
      → cluster ≤ p.fat.last_cluster
      → IsLink p value
      → Shows (write_fat_entry store p st cluster value).1 (set links cluster value)
  write-Shows st links cluster value s lo hi l =
      let (ok, after, holds, spells, outside) =
        write_fat_entry-table store size p laws fat st s.sectors cluster value s.holds lo hi in
      let v = link_value_of p.filesys_type p.fat.last_cluster value fat.known fat.numbers l in
      record {
        sectors = after;
        holds = holds;
        spells = λ d. spells d ∙ ground (arith, s.spells d, v);
        outside = λ t o out. outside t o out ∙ s.outside t o out;
      }
