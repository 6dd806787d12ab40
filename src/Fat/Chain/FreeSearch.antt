-- ===== src/Fat/Chain/FreeSearch.antt =====
-- The search of `_FAT_fat_linkFreeCluster` for a free cluster: it ends within twice the table, at a
-- free cluster of the partition, or after it has seen that there is none.
use libfat.Base.{
  ℕ, zero, suc, ◌+◌, ◌-◌, ◌^◌, ◌≤◌, ◌<◌, ◌≡◌, ◌≢◌, inl, inr, Bool, true, false, ◌||◌, arith, u32,
  ltb, ◌==◌, if◌then◌else◌, refl, Bool-cases, Option, some,
}
use native.Mathlib.Decide.{ℕ_discrete, dec_lt}
use libfat.Cache.Invariant.{Sectors}
use libfat.Store.{SectorStore, IsStore}
use libfat.Partition.State.{Partition}
use libfat.Fat.Entry.{next_cluster, cluster_first, cluster_free}
use libfat.Fat.Table.{IsFat}
use libfat.Fat.Chain.{Search, search_free}
use libfat.Fat.Chain.Shows.{Links, Shows, next-Shows}

or_false : (b : Bool) → (b || false) ≡ b
or_false true = refl
or_false false = refl

module _ (store : SectorStore) (size : ℕ) (p : Partition)
    (laws : IsStore store size p.bytes_per_sector) (fat : IsFat p size) (base : Sectors)
    (links : Links) where
  abbrev last : ℕ
  last = p.fat.last_cluster

  abbrev Now : store.State → Type 0
  Now st = Shows store size p laws fat base st links

  -- What the flag and the cluster of the search say.
  abbrev pub Outcome : Bool → ℕ → Type 0
  Outcome true at = (cluster_first ≤ at) × (at ≤ last) × (links at ≡ cluster_free)
  Outcome false at =
      (at ≡ last + 1) × ((d : ℕ) → cluster_first ≤ d → d ≤ last → links d ≢ cluster_free)

  pub record Searched (r : Option (Search store p)) : Type 0 where
    pub search : Search store p
    pub ends : r ≡ some search
    pub outcome : Outcome search.found search.at
    pub shows : Now search.state

  small : last < 2 ^ 28
  small = fat.entries.small

  -- One more cluster has been seen.
  seen_to :
      (ff : ℕ)
      → ((d : ℕ) → cluster_first ≤ d → d < ff → links d ≢ cluster_free)
      → links ff ≢ cluster_free
      → (d : ℕ) → cluster_first ≤ d
      → d < ff + 1
      → links d ≢ cluster_free
  seen_to ff seen here d lo hi = elim (ℕ_discrete d ff) [
    | yes e ↦ rw e here
    | no ne ↦ seen d lo (omega arith)
  ]

  -- How many rounds are left at most.
  abbrev rounds : ℕ → Bool → ℕ
  rounds first_free looped = last + 1 - first_free + (if looped then 0 else last)

  pub search_free-Searched :
      (fuel : ℕ) (st : store.State) (first_free : ℕ) (looped : Bool)
      → Now st
      → cluster_first ≤ first_free
      → first_free ≤ last
      → rounds first_free looped ≤ fuel
      → (looped ≡ true → (d : ℕ) → cluster_first ≤ d → d < first_free → links d ≢ cluster_free)
      → Searched (search_free store p fuel st first_free looped)
  unfolding search_free
  search_free-Searched zero st ff looped now lo hi enough seen = absurd (ground arith)
  search_free-Searched (suc fuel) st ff looped now lo hi enough seen =
      let (e, now') = next-Shows store size p laws fat base st links ff now hi in
      elim (Bool-cases ((next_cluster store p st ff).0 == cluster_free)) [
        | inl free ↦
            rw free
              (record { search = _; ends = refl; outcome = (lo, hi, ground arith); shows = now' })
        | inr taken ↦
            let here : links ff ≢ cluster_free = λ z. absurd (ground arith) in
            elim (dec_lt last (ff + 1)) [
              | yes wraps ↦
                  let w : ltb p.fat.last_cluster (u32 (ff + 1)) ≡ true = ground (arith, small) in
                  elim (Bool-cases looped) [
                    | inl again ↦
                        rw (taken, w, again)
                          (record {
                            search = _;
                            ends = refl;
                            outcome = (
                              omega (arith, small),
                              λ d dlo dhi. seen_to ff (seen again) here d dlo (omega arith),
                            );
                            shows = now';
                          })
                    | inr once ↦
                        rw (taken, w, once)
                          (search_free-Searched fuel _ cluster_first true now' (omega arith)
                            (omega arith) (ground arith) (λ e d dlo dhi. absurd (omega arith)))
                  ]
              | no on ↦
                  let w : ltb p.fat.last_cluster (u32 (ff + 1)) ≡ false = ground (arith, small) in
                  let e' : u32 (ff + 1) ≡ ff + 1 = omega (arith, small) in
                  rw (taken, w, e', or_false looped)
                    (search_free-Searched fuel _ (ff + 1) looped now' (omega arith) (omega arith)
                      (ground arith) (λ l. seen_to ff (seen l) here))
            ]
      ]
