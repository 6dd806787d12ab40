-- ===== src/Fat/Chain.antt =====
-- The functions of source/file_allocation_table.c that follow, extend and cut chains of clusters.
-- Their loops take fuel, and `none` is a loop that has not ended by then.
pub mod Shows
pub mod Chains
pub mod FreeSearch
pub mod Link
pub mod Clear
pub mod Trim
pub mod Count
pub mod Cleared
use libfat.Base.{
  ℕ, zero, suc, ◌+◌, ◌-◌, ◌*◌, ◌/◌, Bool, true, false, Option, none, some, u32, ltb, leb, ◌==◌, not,
  ◌||◌, ◌&&◌, if◌then◌else◌,
}
use libfat.Store.{SectorStore}
use libfat.Partition.State.{Partition, Volume}
use libfat.Fat.Entry.{
  cluster_eof, cluster_free, cluster_first, cluster_error, cluster_to_sector, next_cluster,
  write_fat_entry,
}

infixl 5 ◌>>=◌
abbrev pub ◌>>=◌ : {A B : Type 0} → Option A → (A → Option B) → Option B
none >>= f = none
some a >>= f = f a

module _ (store : SectorStore) (p : Partition) where
  -- Does the loop of `_FAT_fat_linkFreeCluster` end at a free cluster, where, and in what state?
  pub record Search : Type 0 where
    pub found : Bool
    pub at : ℕ
    pub state : store.State

  pub search_free : ℕ → store.State → ℕ → Bool → Option Search
  search_free zero st first_free looped = none
  search_free (suc fuel) st first_free looped =
      let (next, st') = next_cluster store p st first_free in
      let first_free' = u32 (first_free + 1) in
      let wraps = ltb p.fat.last_cluster first_free' in
      let rest =
        search_free fuel st' (if wraps then cluster_first else first_free') (looped || wraps) in
      if next == cluster_free
      then some (record { found = true; at = first_free; state = st' })
      else if wraps && looped
      then some (record { found = false; at = first_free'; state = st' })
      else rest

  -- The two writes, once a free cluster is found, after those to the counters.
  pub take_cluster : Volume store → ℕ → Search → ℕ × Volume store
  take_cluster v cluster s =
      let n = v.number_free_cluster in
      let v' = record v { first_free = s.at; cache = s.state } in
      let linked =
        if leb cluster_first cluster && leb cluster p.fat.last_cluster
        then (write_fat_entry store p s.state cluster s.at).1
        else s.state in
      if s.found
      then (
        s.at,
        record v' {
          number_free_cluster = if n == 0 then n else n - 1;
          number_last_alloc_cluster = s.at;
          cache = (write_fat_entry store p linked s.at cluster_eof).1;
        },
      )
      else (cluster_error, v')

  -- Twice round the table.
  abbrev pub search_fuel : ℕ
  search_fuel = 2 * p.fat.last_cluster + 1

  pub link_free_cluster : Volume store → ℕ → Option (ℕ × Volume store)
  unfolding search_free take_cluster
  link_free_cluster v cluster =
      if ltb p.fat.last_cluster cluster
      then some (cluster_error, v)
      else (let (cur_link, st) = next_cluster store p v.cache cluster in
          let first_free = if ltb v.first_free cluster_first then cluster_first else v.first_free in
          if leb cluster_first cur_link && leb cur_link p.fat.last_cluster
          then some (cur_link, record v { cache = st })
          else (search_free search_fuel st first_free false >>= λ s.
              some (take_cluster v cluster s)))

  -- The body of the loop that frees a chain.
  pub free_cluster : Volume store → ℕ → ℕ × Volume store
  free_cluster v cluster =
      let (next, st) = next_cluster store p v.cache cluster in
      let n = v.number_free_cluster in
      (
        next,
        record v {
          number_free_cluster =
              if ltb n (p.number_of_sectors / p.sectors_per_cluster) then n + 1 else n;
          cache = (write_fat_entry store p st cluster cluster_free).1;
        },
      )

  pub clear_from : ℕ → Volume store → ℕ → Option (Volume store)
  clear_from zero v cluster =
      if not (cluster == cluster_eof)
        && not (cluster == cluster_free)
        && not (cluster == cluster_error)
      then none
      else some v
  clear_from (suc fuel) v cluster =
      let (next, v') = free_cluster v cluster in
      let rest = clear_from fuel v' next in
      if not (cluster == cluster_eof)
        && not (cluster == cluster_free)
        && not (cluster == cluster_error)
      then rest
      else some v

  -- A chain has no more clusters than the partition.
  abbrev pub chain_fuel : ℕ
  chain_fuel = p.fat.last_cluster

  pub clear_links : Volume store → ℕ → Option (Bool × Volume store)
  unfolding clear_from free_cluster
  clear_links v cluster =
      if ltb cluster cluster_first || ltb p.fat.last_cluster cluster
      then some (false, v)
      else (clear_from chain_fuel
            (record v { first_free = if ltb cluster v.first_free then cluster else v.first_free })
            cluster
          >>= λ v'. some (true, v'))

  -- The clusters that `_FAT_fat_trimChain` keeps: the last of them, and what it links to.
  pub trim_to : ℕ → store.State → ℕ → ℕ × ℕ × store.State
  trim_to zero st cluster =
      let (next, st') = next_cluster store p st cluster in (cluster, next, st')
  trim_to (suc length) st cluster =
      let (next, st') = next_cluster store p st cluster in
      let rest = trim_to length st' next in
      if not (next == cluster_free) && not (next == cluster_eof) then rest else (cluster, next, st')

  pub trim_chain : Volume store → ℕ → ℕ → Option (ℕ × Volume store)
  unfolding trim_to
  trim_chain v start_cluster zero = clear_links v start_cluster >>= λ r. some (cluster_free, r.1)
  trim_chain v start_cluster (suc length) =
      let (last, next, st) = trim_to length v.cache start_cluster in
      let v' = record v { cache = st } in
      (if not (next == cluster_free) && not (next == cluster_eof)
        then (clear_links v' next >>= λ r. some r.1)
        else some v')
      >>= λ v''.
          some (last, record v'' { cache = (write_fat_entry store p v''.cache last cluster_eof).1 })

  pub last_cluster_from : ℕ → store.State → ℕ → Option (ℕ × store.State)
  last_cluster_from zero st cluster = none
  last_cluster_from (suc fuel) st cluster =
      let (next, st') = next_cluster store p st cluster in
      let (next', st'') = next_cluster store p st' cluster in
      let (next'', st''') = next_cluster store p st'' cluster in
      let rest = last_cluster_from fuel st''' next'' in
      if next == cluster_free
      then some (cluster, st')
      else if next' == cluster_eof
      then some (cluster, st'')
      else rest

  pub last_cluster : store.State → ℕ → Option (ℕ × store.State)
  unfolding last_cluster_from
  last_cluster st cluster = last_cluster_from chain_fuel st cluster

  -- The loop from `cluster` on, with `left` rounds to come.
  pub count_free : ℕ → store.State → ℕ → ℕ → ℕ × store.State
  count_free zero st cluster count = (count, st)
  count_free (suc left) st cluster count =
      let (next, st') = next_cluster store p st cluster in
      count_free left st' (cluster + 1) (if next == cluster_free then count + 1 else count)

  pub free_cluster_count : store.State → ℕ × store.State
  unfolding count_free
  free_cluster_count st = count_free (p.fat.last_cluster + 1 - cluster_first) st cluster_first 0

  -- memset (emptySector, 0, ...)
  abbrev pub empty_sector : ℕ → ℕ
  empty_sector i = 0

  pub clear_sectors : ℕ → store.State → ℕ → ℕ → store.State
  clear_sectors zero st cluster i = st
  clear_sectors (suc left) st cluster i =
      clear_sectors left
        (store.write_sectors st (u32 (cluster_to_sector p cluster + i)) 1 empty_sector).state
        cluster (i + 1)

  pub link_free_cluster_cleared : Volume store → ℕ → Option (ℕ × Volume store)
  unfolding link_free_cluster clear_sectors
  link_free_cluster_cleared v cluster = link_free_cluster v cluster >>= λ r.
      if r.0 == cluster_free || r.0 == cluster_error
      then some (cluster_error, r.1)
      else some (r.0, record (r.1) { cache = clear_sectors p.sectors_per_cluster r.1.cache r.0 0 })
