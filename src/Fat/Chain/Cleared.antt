-- ===== src/Fat/Chain/Cleared.antt =====
-- `_FAT_fat_linkFreeClusterCleared`: the new cluster is zeroed.
use libfat.Base.{
  ℕ, zero, suc, ◌+◌, ◌^◌, ◌≤◌, ◌<◌, ◌≡◌, ◌⊎◌, inl, inr, false, ◌&&◌, ◌||◌, arith, u32, ltb, leb,
  ◌==◌, if◌then◌else◌, refl, ◌∙◌, Option, some,
}
use libfat.Cache.Invariant.{Sectors}
use libfat.Store.{SectorStore, IsStore}
use libfat.Partition.State.{Partition, Volume}
use libfat.Fat.Entry.{cluster_to_sector, cluster_first, cluster_free, cluster_error}
use libfat.Fat.Table.{IsFat}
use libfat.Fat.Chain.{link_free_cluster, link_free_cluster_cleared, clear_sectors, empty_sector}
use libfat.Fat.Chain.Shows.{Links, Shows}
use libfat.Fat.Chain.Clear.{IsFat-small}
use libfat.Fat.Chain.Link.{link_free_cluster_lem, Kept, Unlinked, Allocated, Full}

-- These sectors with `n` of them zero from `first` on.
abbrev pub zeroed : Sectors → ℕ → ℕ → Sectors
zeroed sectors first n s o = if leb first s && ltb s (first + n) then 0 else sectors s o

module _ (store : SectorStore) (size : ℕ) (p : Partition)
    (laws : IsStore store size p.bytes_per_sector) where
  open laws use {Holds}

  clear_sectors-zeroed :
      (left : ℕ) (st : store.State) (sectors : Sectors) (cluster i : ℕ)
      → Holds st sectors
      → cluster_to_sector p cluster + i + left ≤ size
      → size < 2 ^ 32
      → (held : Sectors) × Holds (clear_sectors store p left st cluster i) held
        × ((s o : ℕ) → held s o ≡ zeroed sectors (cluster_to_sector p cluster + i) left s o)
  unfolding clear_sectors
  clear_sectors-zeroed zero st sectors cluster i h fits small = (sectors, h, λ s o. ground arith)
  clear_sectors-zeroed (suc left) st sectors cluster i h fits small =
      let first = cluster_to_sector p cluster in
      let e : u32 (first + i) ≡ first + i = omega arith in
      let (ok, h') =
        laws.writes_sectors st sectors (empty_sector store p) (u32 (first + i)) 1 h
          (λ k. omega arith) (omega arith) in
      let (held, h'', same) =
        clear_sectors-zeroed left _ _ cluster (i + 1) h' (omega arith) small in
      (held, h'', λ s o. same s o ∙ ground (arith, e))

module _ (store : SectorStore) (size : ℕ) (p : Partition)
    (laws : IsStore store size p.bytes_per_sector) (fat : IsFat p size) (base : Sectors)
    (links : Links) where
  -- The volume after the new cluster was cleared, against the one `r` after it was allocated.
  pub record Zeroed (r : ℕ × Volume store) (now : Shows store size p laws fat base r.1.cache links)
      (x : Option (ℕ × Volume store)) : Type 0 where
    pub volume : Volume store
    pub ends : x ≡ some (r.0, volume)
    pub held : Sectors
    pub holds : laws.Holds volume.cache held
    pub zero_there :
        (s o : ℕ)
        → held s o ≡ zeroed now.sectors (cluster_to_sector p r.0) p.sectors_per_cluster s o
    pub counters : volume ≡ record (r.1) { cache = volume.cache }

  cleared_after :
      (v : Volume store) (cluster : ℕ) (r : ℕ × Volume store)
      → link_free_cluster store p v cluster ≡ some r
      → cluster_first ≤ r.0
      → r.0 ≤ p.fat.last_cluster
      → (now : Shows store size p laws fat base r.1.cache links)
      → cluster_to_sector p r.0 + p.sectors_per_cluster ≤ size
      → Zeroed r now (link_free_cluster_cleared store p v cluster)
  unfolding link_free_cluster_cleared
  cleared_after v cluster r linked lo hi now fits =
      let t : (r.0 == cluster_free || r.0 == cluster_error) ≡ false =
        ground (arith, IsFat-small fat) in
      let e : cluster_to_sector p r.0 + 0 ≡ cluster_to_sector p r.0 = omega arith in
      let (held, h, same) =
        clear_sectors-zeroed store size p laws p.sectors_per_cluster r.1.cache now.sectors r.0 0
          now.holds (omega arith) fat.no_wrap in
      rw (linked, t)
        (record {
          volume = _;
          ends = refl;
          held = held;
          holds = h;
          zero_there = rw e at same;
          counters = refl;
        })

module _ (store : SectorStore) (size : ℕ) (p : Partition)
    (laws : IsStore store size p.bytes_per_sector) (fat : IsFat p size) (base : Sectors)
    (links : Links) where
  -- What was allocated, and the table at that point.
  pub record ClearedNew (r : ℕ × Volume store) (x : Option (ℕ × Volume store)) : Type 0 where
    pub lo : cluster_first ≤ r.0
    pub hi : r.0 ≤ p.fat.last_cluster
    pub table_then : Links
    pub now : Shows store size p laws fat base r.1.cache table_then
    pub zeros : Zeroed store size p laws fat base table_then r now x

  error_stays :
      (v : Volume store) (cluster : ℕ) (r : ℕ × Volume store)
      → link_free_cluster store p v cluster ≡ some r
      → r.0 ≡ cluster_error
      → link_free_cluster_cleared store p v cluster ≡ some (cluster_error, r.1)
  unfolding link_free_cluster_cleared
  error_stays v cluster r linked e = rw (linked, e) refl

  zeros :
      (v : Volume store) (cluster : ℕ) (r : ℕ × Volume store) (t : Links)
      → link_free_cluster store p v cluster ≡ some r
      → ((c : ℕ)
          → cluster_first ≤ c
          → c ≤ p.fat.last_cluster
          → cluster_to_sector p c + p.sectors_per_cluster ≤ size)
      → cluster_first ≤ r.0
      → r.0 ≤ p.fat.last_cluster
      → Shows store size p laws fat base r.1.cache t
      → ClearedNew r (link_free_cluster_cleared store p v cluster)
  zeros v cluster r t linked fits lo hi now = record {
    lo = lo;
    hi = hi;
    table_then = t;
    now = now;
    zeros =
        cleared_after store size p laws fat base t v cluster r linked lo hi now (fits r.0 lo hi);
  }

  -- Where every cluster lies inside the store and firstFree is at most the last cluster,
  -- `_FAT_fat_linkFreeClusterCleared` ends. If the cluster has no link and no cluster is free,
  -- CLUSTER_ERROR is returned and the table stays; otherwise the cluster that
  -- `_FAT_fat_linkFreeCluster` returned, which is the link that was there before or a free one that
  -- was put behind it; then all sectors of that cluster are zero, no other sector differs from what
  -- that function left, and the counters are those that it left.
  pub link_free_cluster_cleared-ClearedNew :
      (v : Volume store) (cluster : ℕ)
      → Shows store size p laws fat base v.cache links
      → cluster ≤ p.fat.last_cluster
      → cluster_first ≤ p.fat.last_cluster
      → v.first_free ≤ p.fat.last_cluster
      → ((c : ℕ)
          → cluster_first ≤ c
          → c ≤ p.fat.last_cluster
          → cluster_to_sector p c + p.sectors_per_cluster ≤ size)
      → (r : ℕ × Volume store) × (link_free_cluster store p v cluster ≡ some r)
        × ((Unlinked store size p laws fat base links cluster
              × Full store size p laws fat base links v r
              × (link_free_cluster_cleared store p v cluster ≡ some (cluster_error, r.1)))
            ⊎ ((Kept store size p laws fat base links v cluster r
                  ⊎ (Unlinked store size p laws fat base links cluster
                      × Allocated store size p laws fat base links v cluster r))
                × ClearedNew r (link_free_cluster_cleared store p v cluster)))
  link_free_cluster_cleared-ClearedNew v cluster now in_range some_cluster start fits =
      let (r, linked, outcome) =
        link_free_cluster_lem store size p laws fat base links v cluster now in_range some_cluster
          start in
      (
        r,
        linked,
        elim outcome [
          | inl kept ↦ inr (
            inl kept,
            zeros v cluster r links linked fits (rw (← kept.link) at kept.lo)
                (rw (← kept.link) at kept.hi) kept.shows,
          )
          | inr (unlinked, inl new) ↦
              inr (inr (unlinked, new), zeros v cluster r _ linked fits new.lo new.hi new.shows)
          | inr (unlinked, inr full) ↦
              inl (unlinked, full, error_stays v cluster r linked full.error)
        ],
      )
