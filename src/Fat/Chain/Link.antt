-- ===== src/Fat/Chain/Link.antt =====
-- `_FAT_fat_linkFreeCluster`: what it returns and what it does to the table, on every path.
use libfat.Base.{
  ℕ, suc, ◌+◌, ◌-◌, ◌*◌, ◌≤◌, ◌<◌, ◌≡◌, ◌≢◌, ◌⊎◌, inl, inr, Bool, true, false, ◌&&◌, arith, ltb,
  leb, ◌==◌, if◌then◌else◌, refl, ◌∙◌, Bool-cases, Option, some,
}
use libfat.Cache.Invariant.{Sectors}
use libfat.Store.{SectorStore, IsStore}
use libfat.Partition.State.{Partition, Volume}
use libfat.Fat.Entry.{
  next_cluster, cluster_first, cluster_free, cluster_eof, cluster_error, is_valid_cluster,
}
use libfat.Fat.Table.{HasEntry, IsFat}
use libfat.Fat.Entry.Next.{next_cluster-table}
use libfat.Fat.Chain.{Search, search_free, search_fuel, take_cluster, link_free_cluster, ◌>>=◌}
use libfat.Fat.Chain.Shows.{Links, set, Shows, next-Shows, write-Shows}
use libfat.Fat.Chain.FreeSearch.{Searched, Outcome, search_free-Searched}

-- The counters after an allocation of cluster `at`.
abbrev pub Counted : {store : SectorStore} → Volume store → Volume store → ℕ → Type 0
Counted v v' at =
    (v'.first_free ≡ at)
    × (v'.number_last_alloc_cluster ≡ at)
    × (v'.number_free_cluster ≡ v.number_free_cluster - 1)
    × (v'.cwd_cluster ≡ v.cwd_cluster)

module _ (store : SectorStore) (size : ℕ) (p : Partition)
    (laws : IsStore store size p.bytes_per_sector) (fat : IsFat p size) (base : Sectors)
    (links : Links) where
  abbrev last : ℕ
  last = p.fat.last_cluster

  abbrev Now : store.State → Links → Type 0
  Now = Shows store size p laws fat base

  -- The table after cluster `at` was put behind `cluster`, which may be no cluster.
  abbrev pub linked : ℕ → ℕ → Links
  linked cluster at =
      set
        (if leb cluster_first cluster && leb cluster p.fat.last_cluster
          then set links cluster at
          else links)
        at cluster_eof

  -- An allocation: a cluster of the partition that was free ends the chain that it was put behind.
  pub record Allocated (v : Volume store) (cluster : ℕ) (r : ℕ × Volume store) : Type 0 where
    pub lo : cluster_first ≤ r.0
    pub hi : r.0 ≤ last
    pub was_free : links r.0 ≡ cluster_free
    pub shows : Now r.1.cache (linked cluster r.0)
    pub counted : Counted v r.1 r.0

  -- No cluster is free: the table stays.
  pub record Full (v : Volume store) (r : ℕ × Volume store) : Type 0 where
    pub error : r.0 ≡ cluster_error
    pub past_end : r.1.first_free ≡ last + 1
    pub none_free : (d : ℕ) → cluster_first ≤ d → d ≤ last → links d ≢ cluster_free
    pub shows : Now r.1.cache links

  take_cluster-Allocated :
      (v : Volume store) (cluster : ℕ) (s : Search store p)
      → s.found ≡ true
      → cluster_first ≤ s.at
      → s.at ≤ last
      → links s.at ≡ cluster_free
      → Now s.state links
      → Allocated v cluster (take_cluster store p v cluster s)
  unfolding take_cluster
  take_cluster-Allocated v cluster s found lo hi free now =
      elim (Bool-cases (leb cluster_first cluster && leb cluster p.fat.last_cluster)) [
        | inl inside ↦
            rw (found, inside)
              (record {
                lo = lo;
                hi = hi;
                was_free = free;
                shows = rw inside (
                    write-Shows store size p laws fat base _ _ s.at cluster_eof
                      (write-Shows store size p laws fat base _ _ cluster s.at now (ground arith)
                        (ground arith) (inl hi))
                      lo hi (inr refl));
                counted = (refl, refl, ground arith, refl);
              })
        | inr outside ↦
            rw (found, outside)
              (record {
                lo = lo;
                hi = hi;
                was_free = free;
                shows = rw outside (
                    write-Shows store size p laws fat base _ links s.at cluster_eof now lo hi
                      (inr refl));
                counted = (refl, refl, ground arith, refl);
              })
      ]

  take_cluster-Full :
      (v : Volume store) (cluster : ℕ) (s : Search store p)
      → s.found ≡ false
      → s.at ≡ last + 1
      → ((d : ℕ) → cluster_first ≤ d → d ≤ last → links d ≢ cluster_free)
      → Now s.state links
      → Full v (take_cluster store p v cluster s)
  unfolding take_cluster
  take_cluster-Full v cluster s found at full now =
      rw found (record { error = refl; past_end = at; none_free = full; shows = now })

  -- The cluster had a link already: nothing is allocated.
  pub record Kept (v : Volume store) (cluster : ℕ) (r : ℕ × Volume store) : Type 0 where
    pub lo : cluster_first ≤ links cluster
    pub hi : links cluster ≤ last
    pub link : r.0 ≡ links cluster
    pub same : r.1 ≡ record v { cache = r.1.cache }
    pub shows : Now r.1.cache links

  abbrev pub Unlinked : ℕ → Type 0
  Unlinked cluster = (links cluster < cluster_first) ⊎ (last < links cluster)

  Searched-Allocated :
      (v : Volume store) (cluster : ℕ) (r : Option (Search store p))
      → Searched store size p laws fat base links r
      → (x : ℕ × Volume store) × ((r >>= λ s. some (take_cluster store p v cluster s)) ≡ some x)
        × (Allocated v cluster x ⊎ Full v x)
  Searched-Allocated v cluster r f =
      let e : (r >>= λ s. some (take_cluster store p v cluster s))
          ≡ some (take_cluster store p v cluster f.search) =
        rw (f.ends) refl in
      (_, e, allocates f.search _ refl f.outcome f.shows)
    where
      allocates :
          (s : Search store p) (b : Bool)
          → s.found ≡ b
          → Outcome store size p laws fat base links b s.at
          → Now s.state links
          → Allocated v cluster (take_cluster store p v cluster s)
            ⊎ Full v (take_cluster store p v cluster s)
      allocates s true found (lo, hi, free) now =
          inl (take_cluster-Allocated v cluster s found lo hi free now)
      allocates s false found (at, full) now = inr (take_cluster-Full v cluster s found at full now)

  -- `_FAT_fat_linkFreeCluster` ends for every cluster number up to the last, 0 included, where
  -- firstFree is at most the last cluster. If the cluster has a link to a cluster of the partition,
  -- that link is returned and neither the table nor a counter changes. Otherwise either a cluster of
  -- the partition that was free is returned, it ends the chain, the given cluster (if it is one)
  -- links to it, no other link changes and the counters record it; or no cluster is free,
  -- CLUSTER_ERROR is returned and the table stays.
  pub link_free_cluster_lem :
      (v : Volume store) (cluster : ℕ)
      → Now v.cache links
      → cluster ≤ last
      → cluster_first ≤ last
      → v.first_free ≤ last
      → (r : ℕ × Volume store) × (link_free_cluster store p v cluster ≡ some r)
        × (Kept v cluster r ⊎ (Unlinked cluster × (Allocated v cluster r ⊎ Full v r)))
  unfolding link_free_cluster
  link_free_cluster_lem v cluster now in_range some_cluster start =
      let (e, now') = next-Shows store size p laws fat base v.cache links cluster now in_range in
      let t : ltb p.fat.last_cluster cluster ≡ false = ground arith in
      let first = if ltb v.first_free cluster_first then cluster_first else v.first_free in
      elim (Bool-cases
        (leb cluster_first (links cluster) && leb (links cluster) p.fat.last_cluster)) [
          | inl linked ↦
              rw (t, e, linked)
                (
                  _,
                  refl,
                  inl (record {
                    lo = ground arith;
                    hi = ground arith;
                    link = refl;
                    same = refl;
                    shows = now';
                  }),
                )
          | inr unlinked ↦
              let (x, ends, done) = Searched-Allocated v cluster _ (
                search_free-Searched store size p laws fat base links (search_fuel store p) _ first
                  false now' (ground arith) (ground arith) (ground arith) (λ z. cc)) in
              rw (t, e, unlinked) (x, ends, inr (ground arith, done))
        ]

  -- Where the search starts one past the last cluster, which is where a search that found the table
  -- full has left it, and the table has a zero entry there (the rest of its last sector), that
  -- number is returned and recorded although it is no cluster of the partition.
  pub link_free_cluster_past_end :
      (v : Volume store) (cluster : ℕ)
      → Now v.cache links
      → cluster ≤ last
      → Unlinked cluster
      → cluster_first ≤ last
      → v.first_free ≡ last + 1
      → HasEntry p (last + 1)
      → links (last + 1) ≡ cluster_free
      → (r : ℕ × Volume store) × (link_free_cluster store p v cluster ≡ some r)
        × (r.0 ≡ last + 1)
        × (is_valid_cluster p r.0 ≡ false)
        × (r.1.number_last_alloc_cluster ≡ last + 1)
  unfolding link_free_cluster search_free take_cluster is_valid_cluster
  link_free_cluster_past_end v cluster now in_range unlinked some_cluster start entry free =
      let (e, now') = next-Shows store size p laws fat base v.cache links cluster now in_range in
      let (e', holds) =
        next_cluster-table store size p laws fat _ now'.sectors (last + 1) now'.holds entry in
      let e'' : (next_cluster store p (next_cluster store p v.cache cluster).1 (last + 1)).0
          ≡ cluster_free =
        e' ∙ now'.spells (last + 1) ∙ free in
      let t : ltb p.fat.last_cluster cluster ≡ false = ground arith in
      let u : (leb cluster_first (links cluster) && leb (links cluster) p.fat.last_cluster)
          ≡ false =
        ground arith in
      let w : ltb (last + 1) cluster_first ≡ false = ground arith in
      let f : search_fuel store p ≡ suc (2 * last) = omega arith in
      let b : ((next_cluster store p (next_cluster store p v.cache cluster).1 (last + 1)).0
            == cluster_free)
          ≡ true =
        ground arith in
      rw (t, e, u, start, w, f, b) (_, refl, refl, ground arith, refl)
