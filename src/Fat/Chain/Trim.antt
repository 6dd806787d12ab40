-- ===== src/Fat/Chain/Trim.antt =====
-- `_FAT_fat_lastCluster` and `_FAT_fat_trimChain` on a chain.
use libfat.Base.{
  ℕ, zero, suc, ◌/◌, ◌≤◌, ◌<◌, ◌≡◌, inl, inr, true, false, not, ◌&&◌, arith, ◌==◌, if◌then◌else◌,
  refl, sym, some,
}
use libfat.Base.Lists.{List, [], ◌∷◌, length, take, drop, last_of}
use libfat.Cache.Invariant.{Sectors}
use libfat.Store.{SectorStore, IsStore}
use libfat.Partition.State.{Partition, Volume}
use libfat.Fat.Entry.{cluster_first, cluster_free, cluster_eof}
use libfat.Fat.Table.{IsFat}
use libfat.Fat.Chain.{
  trim_to, trim_chain, last_cluster_from, last_cluster, clear_links, chain_fuel, ◌>>=◌,
}
use libfat.Fat.Chain.Shows.{Links, set, Shows, next-Shows, write-Shows}
use libfat.Fat.Chain.Chains.{freed, IsChain, length-chain}
use libfat.Fat.Chain.Clear.{IsFat-small, clear_links-Cleared, counted_up, Cleared-nothing}

module _ (store : SectorStore) (size : ℕ) (p : Partition)
    (laws : IsStore store size p.bytes_per_sector) (fat : IsFat p size) (base : Sectors)
    (links : Links) where
  abbrev last : ℕ
  last = p.fat.last_cluster

  abbrev Now : store.State → Links → Type 0
  Now = Shows store size p laws fat base

  abbrev Chain : ℕ → List ℕ → Type 0
  Chain = IsChain last links

  stops_at_end : (c : ℕ) → Chain c [] → (not (c == cluster_free) && not (c == cluster_eof)) ≡ false
  stops_at_end c f = ground arith

  goes_on_in :
      (c : ℕ) (x : ℕ) (xs : List ℕ)
      → Chain c (x ∷ xs)
      → (not (c == cluster_free) && not (c == cluster_eof)) ≡ true
  goes_on_in c x xs (e, lo, hi, f) = ground (arith, IsFat-small fat)

  last_cluster_from_lem :
      (fuel : ℕ) (st : store.State) (x : ℕ) (xs : List ℕ)
      → Now st links
      → Chain x (x ∷ xs)
      → length xs < fuel
      → (st' : store.State) × (last_cluster_from store p fuel st x ≡ some (last_of x xs, st'))
        × Now st' links
  unfolding last_cluster_from
  last_cluster_from_lem zero st x xs now f h = absurd (omega arith)
  last_cluster_from_lem (suc fuel) st x [] now (e, lo, hi, f) h =
      let (e1, now1) = next-Shows store size p laws fat base st links x now hi in
      let (e2, now2) = next-Shows store size p laws fat base _ links x now1 hi in
      elim f [
        | inl eof ↦ rw (e1, e2, eof) (_, refl, now2)
        | inr free ↦ rw (e1, free) (_, refl, now1)
      ]
  last_cluster_from_lem (suc fuel) st x (y ∷ ys) now (e, lo, hi, f) h =
      let (e1, now1) = next-Shows store size p laws fat base st links x now hi in
      let (e2, now2) = next-Shows store size p laws fat base _ links x now1 hi in
      let (e3, now3) = next-Shows store size p laws fat base _ links x now2 hi in
      let (same, lo', hi', f') = f in
      let t : (y == cluster_free) ≡ false = ground arith in
      let u : (y == cluster_eof) ≡ false = ground (arith, IsFat-small fat) in
      rw (e1, e2, e3, same, t, u)
        (last_cluster_from_lem fuel _ y ys now3 (refl, lo', hi', f') (omega arith))

  -- `_FAT_fat_lastCluster` ends on a chain and returns its last cluster.
  pub last_cluster_lem :
      (st : store.State) (c : ℕ) (xs : List ℕ)
      → Now st links
      → Chain c (c ∷ xs)
      → (st' : store.State) × (last_cluster store p st c ≡ some (last_of c xs, st')) × Now st' links
  unfolding last_cluster
  last_cluster_lem st c xs now f =
      last_cluster_from_lem (chain_fuel store p) st c xs now f
        (omega (arith, length-chain last links c (c ∷ xs) (IsFat-small fat) f))

  -- The clusters that are kept: the last of them and the chain behind it.
  record Trimmed (n : ℕ) (x : ℕ) (xs : List ℕ) (r : ℕ × ℕ × store.State) : Type 0 where
    last_kept : r.0 ≡ last_of x (take n xs)
    next : r.1 ≡ links r.0
    lo : cluster_first ≤ r.0
    hi : r.0 ≤ last
    dropped : Chain r.1 (drop n xs)
    shows : Now r.2 links

  trim_to-Trimmed :
      (n : ℕ) (st : store.State) (x : ℕ) (xs : List ℕ)
      → Now st links
      → Chain x (x ∷ xs)
      → Trimmed n x xs (trim_to store p n st x)
  unfolding trim_to
  trim_to-Trimmed zero st x xs now (e, lo, hi, f) =
      let (e1, now1) = next-Shows store size p laws fat base st links x now hi in
      rw e1 (record { last_kept = refl; next = refl; lo = lo; hi = hi; dropped = f; shows = now1 })
  trim_to-Trimmed (suc n) st x [] now (e, lo, hi, f) =
      let (e1, now1) = next-Shows store size p laws fat base st links x now hi in
      rw (e1, stops_at_end (links x) f)
        (record { last_kept = refl; next = refl; lo = lo; hi = hi; dropped = f; shows = now1 })
  trim_to-Trimmed (suc n) st x (y ∷ ys) now (e, lo, hi, f) =
      let (e1, now1) = next-Shows store size p laws fat base st links x now hi in
      let (same, lo', hi', f') = f in
      let t : (not (y == cluster_free) && not (y == cluster_eof)) ≡ true =
        ground (arith, IsFat-small fat) in
      let rest = trim_to-Trimmed n _ y ys now1 (refl, lo', hi', f') in
      rw (e1, same, t)
        (record {
          last_kept = rest.last_kept;
          next = rest.next;
          lo = rest.lo;
          hi = rest.hi;
          dropped = rest.dropped;
          shows = rest.shows;
        })

  -- `_FAT_fat_trimChain` ends on a chain. With length 0 it frees the whole chain and returns
  -- CLUSTER_FREE.
  pub trim_chain-none :
      (v : Volume store) (c : ℕ) (xs : List ℕ)
      → Now v.cache links
      → Chain c (c ∷ xs)
      → (v' : Volume store) × (trim_chain store p v c 0 ≡ some (cluster_free, v'))
        × Now v'.cache (freed links (c ∷ xs))
  unfolding trim_chain
  trim_chain-none v c xs now f =
      let (v', ends, done) = clear_links-Cleared store size p laws fat base links v c xs now f in
      rw ends (v', refl, done.shows)

  -- The tail of a chain is freed, if there is one.
  drop-Cleared :
      (v : Volume store) (c : ℕ) (xs : List ℕ)
      → Now v.cache links
      → Chain c xs
      → (v' : Volume store) × ((if not (c == cluster_free) && not (c == cluster_eof)
            then (clear_links store p v c >>= λ r. some r.1)
            else some v)
          ≡ some v')
        × Now v'.cache (freed links xs)
        × (v'.number_free_cluster
            ≡ counted_up
                (p.number_of_sectors / p.sectors_per_cluster)
                v.number_free_cluster
                (length xs))
  drop-Cleared v c [] now f =
      let done = Cleared-nothing store size p laws fat base links v now in
      rw (stops_at_end c f) (v, refl, done.shows, done.counted)
  drop-Cleared v c (x ∷ xs) now (e, lo, hi, f) =
      let (v', ends, done) =
        clear_links-Cleared store size p laws fat base links v x xs now (refl, lo, hi, f) in
      rw (goes_on_in c x xs (e, lo, hi, f), e, ends) (v', refl, done.shows, done.counted)

  -- On a chain, `_FAT_fat_trimChain` ends for every length above 0. It returns the last of the
  -- clusters that are kept, which ends the chain now; those behind it are free, and no other entry
  -- changes. The free clusters counted go up by the number of those, up to that of the volume.
  pub trim_chain_lem :
      (v : Volume store) (c : ℕ) (xs : List ℕ) (n : ℕ)
      → Now v.cache links
      → Chain c (c ∷ xs)
      → let kept = last_of c (take n xs) in
        (v' : Volume store) × (trim_chain store p v c (suc n) ≡ some (kept, v'))
        × Now v'.cache (set (freed links (drop n xs)) kept cluster_eof)
        × (v'.number_free_cluster
            ≡ counted_up
                (p.number_of_sectors / p.sectors_per_cluster)
                v.number_free_cluster
                (length (drop n xs)))
  unfolding trim_chain
  trim_chain_lem v c xs n now f =
      let t = trim_to-Trimmed n v.cache c xs now f in
      let (v', ends, shows, counted) =
        drop-Cleared (record v { cache = (trim_to store p n v.cache c).2 }) _ (drop n xs) t.shows
          t.dropped in
      let written =
        write-Shows store size p laws fat base v'.cache _ (trim_to store p n v.cache c).0
          cluster_eof shows t.lo t.hi (inr refl) in
      rw (ends, sym t.last_kept) (_, refl, written, counted)
