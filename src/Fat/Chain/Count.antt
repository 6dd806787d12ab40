-- ===== src/Fat/Chain/Count.antt =====
-- `_FAT_fat_freeClusterCount` counts the free entries of the table.
use libfat.Base.{ℕ, zero, suc, ◌+◌, ◌-◌, ◌≤◌, ◌≡◌, arith, ◌==◌, if◌then◌else◌}
use libfat.Cache.Invariant.{Sectors}
use libfat.Store.{SectorStore, IsStore}
use libfat.Partition.State.{Partition}
use libfat.Fat.Entry.{cluster_first, cluster_free}
use libfat.Fat.Table.{IsFat}
use libfat.Fat.Chain.{count_free, free_cluster_count}
use libfat.Fat.Chain.Shows.{Links, Shows, next-Shows}
use libfat.Fat.Chain.Chains.{free_in}

module _ (store : SectorStore) (size : ℕ) (p : Partition)
    (laws : IsStore store size p.bytes_per_sector) (fat : IsFat p size) (base : Sectors)
    (links : Links) where
  abbrev last : ℕ
  last = p.fat.last_cluster

  abbrev Now : store.State → Type 0
  Now st = Shows store size p laws fat base st links

  count_free_lem :
      (left : ℕ) (st : store.State) (c n : ℕ)
      → Now st
      → c + left ≤ last + 1
      → let r = count_free store p left st c n in (r.0 ≡ n + free_in last links c left) × Now r.1
  unfolding count_free
  count_free_lem zero st c n now h = (ground arith, now)
  count_free_lem (suc left) st c n now h =
      let (e, now') = next-Shows store size p laws fat base st links c now (omega arith) in
      let (e', now'') =
        count_free_lem left _ (c + 1) (if links c == cluster_free then n + 1 else n) now'
          (omega arith) in
      rw (e, count_free) (ground (arith, e'), now'')

  -- `_FAT_fat_freeClusterCount` returns the number of free entries from cluster 2 to the last, and
  -- does not change the table.
  pub free_cluster_count_lem :
      (st : store.State)
      → Now st
      → cluster_first ≤ last + 1
      → let r = free_cluster_count store p st in
        (r.0 ≡ free_in last links cluster_first (last - 1)) × Now r.1
  unfolding free_cluster_count
  free_cluster_count_lem st now h =
      let e : last + 1 - cluster_first ≡ last - 1 = omega arith in
      let (n, now') = count_free_lem (last - 1) st cluster_first 0 now (omega arith) in
      rw e (ground (arith, n), now')
