-- ===== src/Fat/Chain/Clear.antt =====
-- `_FAT_fat_clearLinks` frees exactly the chain that starts at its cluster.
use libfat.Base.{
  ℕ, zero, suc, ◌+◌, ◌/◌, ◌≤◌, ◌<◌, ◌≡◌, inl, Bool, true, false, not, ◌&&◌, ◌||◌, arith, ltb, leb,
  ◌==◌, if◌then◌else◌, refl, ◌∙◌, some,
}
use libfat.Base.Lists.{List, [], ◌∷◌, length}
use libfat.Cache.Invariant.{Sectors}
use libfat.Store.{SectorStore, IsStore}
use libfat.Partition.State.{FsType, fs_unknown, fs_fat12, fs_fat16, fs_fat32, Partition, Volume}
use libfat.Fat.Entry.{cluster_first, cluster_free, cluster_eof, cluster_error}
use libfat.Fat.Table.{IsFat, IsKnown, eof_from}
use libfat.Fat.Chain.{free_cluster, clear_from, clear_links, chain_fuel}
use libfat.Fat.Chain.Shows.{Links, set, Shows, next-Shows, write-Shows}
use libfat.Fat.Chain.Chains.{freed, IsChain, set-IsChain, set-freed, chain-Distinct, length-chain}

-- The free clusters counted after `k` more were freed: the count stops at `total`.
abbrev pub counted_up : ℕ → ℕ → ℕ → ℕ
counted_up total n k = if leb total n then n else (if leb total (n + k) then total else n + k)

counted_up-suc :
    (total n k : ℕ)
    → counted_up total (if ltb n total then n + 1 else n) k ≡ counted_up total n (1 + k)
counted_up-suc total n k = ground arith

last_before_eof : (ty : FsType) (last : ℕ) → IsKnown ty → last < eof_from ty → last < cluster_eof
last_before_eof fs_unknown last known h = absurd known
last_before_eof fs_fat12 last known h = omega arith
last_before_eof fs_fat16 last known h = omega arith
last_before_eof fs_fat32 last known h = omega arith

pub IsFat-small : {p : Partition} {size : ℕ} → IsFat p size → p.fat.last_cluster < cluster_eof
IsFat-small {p} fat = last_before_eof p.filesys_type p.fat.last_cluster fat.known fat.numbers

module _ (store : SectorStore) (size : ℕ) (p : Partition)
    (laws : IsStore store size p.bytes_per_sector) (fat : IsFat p size) (base : Sectors) where
  abbrev last : ℕ
  last = p.fat.last_cluster

  abbrev Now : store.State → Links → Type 0
  Now = Shows store size p laws fat base

  abbrev total : ℕ
  total = p.number_of_sectors / p.sectors_per_cluster

  pub Shows-same :
      (st : store.State) (links links' : Links)
      → Now st links
      → ((d : ℕ) → links d ≡ links' d)
      → Now st links'
  Shows-same st links links' now same = record {
    sectors = now.sectors;
    holds = now.holds;
    spells = λ d. now.spells d ∙ same d;
    outside = now.outside;
  }

  -- What freeing the clusters `xs` of a chain does.
  pub record Cleared (links : Links) (v v' : Volume store) (xs : List ℕ) : Type 0 where
    pub shows : Now v'.cache (freed links xs)
    pub first_free : v'.first_free ≡ v.first_free
    pub counted : v'.number_free_cluster ≡ counted_up total v.number_free_cluster (length xs)
    pub last_alloc : v'.number_last_alloc_cluster ≡ v.number_last_alloc_cluster
    pub cwd : v'.cwd_cluster ≡ v.cwd_cluster

  pub Cleared-nothing :
      (links : Links) (v : Volume store) → Now v.cache links → Cleared links v v []
  Cleared-nothing links v now = record {
    shows = Shows-same v.cache links (freed links []) now (λ d. refl);
    first_free = refl;
    counted = ground arith;
    last_alloc = refl;
    cwd = refl;
  }

  -- Is `c` a cluster for the loop?
  abbrev goes_on : ℕ → Bool
  goes_on c = not (c == cluster_eof) && not (c == cluster_free) && not (c == cluster_error)

  -- The loop of `_FAT_fat_clearLinks` ends on a chain and frees its clusters.
  clear_from-Cleared :
      (fuel : ℕ) (links : Links) (v : Volume store) (c : ℕ) (xs : List ℕ)
      → Now v.cache links
      → IsChain last links c xs
      → length xs ≤ fuel
      → (v' : Volume store) × (clear_from store p fuel v c ≡ some v') × Cleared links v v' xs
  unfolding clear_from free_cluster
  clear_from-Cleared zero links v c [] now f h =
      let e : goes_on c ≡ false = ground arith in rw e (v, refl, Cleared-nothing links v now)
  clear_from-Cleared zero links v c (x ∷ xs) now f h = absurd (omega arith)
  clear_from-Cleared (suc fuel) links v c [] now f h =
      let e : goes_on c ≡ false = ground arith in rw e (v, refl, Cleared-nothing links v now)
  clear_from-Cleared (suc fuel) links v c (x ∷ xs) now (e, lo, hi, f) h =
      let (e', now') = next-Shows store size p laws fat base v.cache links x now hi in
      let new = (chain-Distinct last links x (x ∷ xs) (IsFat-small fat) (refl, lo, hi, f)).0 in
      let on : goes_on x ≡ true = ground (arith, IsFat-small fat) in
      let after = set links x cluster_free in
      let now'' =
        write-Shows store size p laws fat base _ links x cluster_free now' lo hi
          (inl (omega arith)) in
      let (v', ends, done) =
        clear_from-Cleared fuel after (free_cluster store p v x).1 (links x) xs now''
          (set-IsChain last links (links x) x cluster_free xs f new) (omega arith) in
      rw (e, on, e')
        (
          v',
          ends,
          record {
            shows = Shows-same v'.cache _ _ done.shows (set-freed last links x xs);
            first_free = done.first_free;
            counted = done.counted ∙ counted_up-suc total v.number_free_cluster (length xs);
            last_alloc = done.last_alloc;
            cwd = done.cwd;
          },
        )

  -- On a chain that starts at a cluster of the partition, `_FAT_fat_clearLinks` ends and returns
  -- true; the entries of the chain are free and no other entry changes; the free clusters counted
  -- go up by the length of the chain, up to the number of clusters of the volume; and the search
  -- for free clusters will start no later than at that cluster.
  pub clear_links-Cleared :
      (links : Links) (v : Volume store) (c : ℕ) (xs : List ℕ)
      → Now v.cache links
      → IsChain last links c (c ∷ xs)
      → (v' : Volume store) × (clear_links store p v c ≡ some (true, v'))
        × Cleared links
            (record v { first_free = if ltb c v.first_free then c else v.first_free })
            v'
            (c ∷ xs)
  unfolding clear_links
  clear_links-Cleared links v c xs now (e, lo, hi, f) =
      let t : (ltb c cluster_first || ltb p.fat.last_cluster c) ≡ false = ground arith in
      let enough = length-chain last links c (c ∷ xs) (IsFat-small fat) (e, lo, hi, f) in
      let (v', ends, done) =
        clear_from-Cleared (chain_fuel store p) links
          (record v { first_free = if ltb c v.first_free then c else v.first_free }) c (c ∷ xs) now
          (e, lo, hi, f) (omega (arith, enough)) in
      rw (t, ends) (v', refl, done)
