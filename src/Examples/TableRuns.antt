-- ===== src/Examples/TableRuns.antt =====
-- The table at the example volume.
use libfat.Base.{
  ◌+◌, ℕ, ◌%◌, ◌≤◌, ◌<◌, ◌≡◌, ◌⊎◌, inl, inr, true, false, some, arith, refl, if◌then◌else◌, ◌==◌,
}
use libfat.Base.Lists.{[], ◌∷◌}
use libfat.Cache.State.{CacheState}
use libfat.Cache.Invariant.{Sectors}
use libfat.Disc.Ram.{ram}
use libfat.Partition.State.{Volume}
use libfat.Fat.Entry.{next_cluster, write_fat_entry, cluster_eof, is_valid_cluster}
use libfat.Fat.Entry.Next.{next_cluster-table}
use libfat.Fat.Entry.Write.{write_fat_entry-table}
use libfat.Fat.Table.{table, link, entry_values}
use libfat.Fat.Chain.{link_free_cluster, clear_links, trim_chain, last_cluster, free_cluster_count}
use libfat.Fat.Chain.Shows.{Links, Shows, set}
use libfat.Fat.Chain.Chains.{IsChain, freed}
use libfat.Fat.Chain.Link.{
  link_free_cluster_lem, link_free_cluster_past_end, Kept, Unlinked, Allocated, Full,
}
use libfat.Fat.Chain.Clear.{Cleared, clear_links-Cleared}
use libfat.Fat.Chain.Trim.{trim_chain_lem, last_cluster_lem}
use libfat.Fat.Chain.Count.{free_cluster_count_lem}
use libfat.Fat.Chain.{link_free_cluster_cleared}
use libfat.Fat.Chain.Cleared.{ClearedNew, link_free_cluster_cleared-ClearedNew}
use libfat.Fat.Entry.{cluster_to_sector, cluster_error, cluster_first}
use libfat.Examples.Setup.{
  disc_image, disc_image-IsByteSectors, new_cache, new_cache-Refines, new_cache-Shows, ram_store,
  ram_laws, small_volume, small_volume-IsFat, image_links, mounted,
}

abbrev Now : CacheState ram → Links → Type 0
Now = Shows ram_store 64 small_volume ram_laws small_volume-IsFat disc_image

two_three-IsChain : IsChain 10 image_links 2 (2 ∷ 3 ∷ [])
unfolding table
two_three-IsChain = (refl, omega arith, omega arith, (refl, omega arith, omega arith, inl refl))

next_cluster_example :
    let r = next_cluster ram_store small_volume new_cache 2 in
    (r.0 ≡ table disc_image small_volume 2) × ram_laws.Holds r.1 disc_image
next_cluster_example =
    next_cluster-table ram_store 64 small_volume ram_laws small_volume-IsFat new_cache disc_image 2
      (new_cache-Refines, disc_image-IsByteSectors)
      (record { inside = omega arith; small = omega arith })

write_fat_entry_example :
    let r = write_fat_entry ram_store small_volume new_cache 5 2 in
    (r.0 ≡ true)
    × (after : Sectors) × ram_laws.Holds r.1 after
    × ((d : ℕ)
        → table after small_volume d ≡ (
            if d == 5
            then link small_volume.filesys_type (2 % entry_values small_volume.filesys_type)
            else table disc_image small_volume d))
    × ((s o : ℕ) → (s < 1) ⊎ (2 ≤ s) → after s o ≡ disc_image s o)
write_fat_entry_example =
    write_fat_entry-table ram_store 64 small_volume ram_laws small_volume-IsFat new_cache disc_image
      5 2 (new_cache-Refines, disc_image-IsByteSectors) (omega arith) (omega arith)

-- Behind cluster 3, which ends its chain.
link_free_cluster_example :
    (r : ℕ × Volume ram_store) × (link_free_cluster ram_store small_volume mounted 3 ≡ some r)
    × (Kept ram_store 64 small_volume ram_laws small_volume-IsFat disc_image image_links mounted 3 r
        ⊎ (Unlinked ram_store 64 small_volume ram_laws small_volume-IsFat disc_image image_links 3
            × (Allocated ram_store 64 small_volume ram_laws small_volume-IsFat disc_image
                  image_links mounted 3 r
                ⊎ Full ram_store 64 small_volume ram_laws small_volume-IsFat disc_image image_links
                    mounted r)))
link_free_cluster_example =
    link_free_cluster_lem ram_store 64 small_volume ram_laws small_volume-IsFat disc_image
      image_links mounted 3 new_cache-Shows (omega arith) (omega arith) (omega arith)

abbrev found_full : Volume ram_store
found_full = record mounted { first_free = 11 }

link_free_cluster_past_end_example :
    (r : ℕ × Volume ram_store) × (link_free_cluster ram_store small_volume found_full 3 ≡ some r)
    × (r.0 ≡ 11)
    × (is_valid_cluster small_volume r.0 ≡ false)
    × (r.1.number_last_alloc_cluster ≡ 11)
unfolding table
link_free_cluster_past_end_example =
    link_free_cluster_past_end ram_store 64 small_volume ram_laws small_volume-IsFat disc_image
      image_links found_full 3 new_cache-Shows (omega arith) (inr (omega arith)) (omega arith) refl
      (record { inside = omega arith; small = omega arith }) refl

clear_links_example :
    (v' : Volume ram_store) × (clear_links ram_store small_volume mounted 2 ≡ some (true, v'))
    × Cleared ram_store 64 small_volume ram_laws small_volume-IsFat disc_image image_links
        (record mounted { first_free = 2 })
        v'
        (2 ∷ 3 ∷ [])
clear_links_example =
    clear_links-Cleared ram_store 64 small_volume ram_laws small_volume-IsFat disc_image image_links
      mounted 2 (3 ∷ []) new_cache-Shows two_three-IsChain

trim_chain_example :
    (v' : Volume ram_store) × (trim_chain ram_store small_volume mounted 2 1 ≡ some (2, v'))
    × Now v'.cache (set (freed image_links (3 ∷ [])) 2 cluster_eof)
    × (v'.number_free_cluster ≡ 8)
trim_chain_example =
    trim_chain_lem ram_store 64 small_volume ram_laws small_volume-IsFat disc_image image_links
      mounted 2 (3 ∷ []) 0 new_cache-Shows two_three-IsChain

last_cluster_example :
    (st' : CacheState ram) × (last_cluster ram_store small_volume new_cache 2 ≡ some (3, st'))
    × Now st' image_links
last_cluster_example =
    last_cluster_lem ram_store 64 small_volume ram_laws small_volume-IsFat disc_image image_links
      new_cache 2 (3 ∷ []) new_cache-Shows two_three-IsChain

free_cluster_count_example :
    let r = free_cluster_count ram_store small_volume new_cache in (r.0 ≡ 7) × Now r.1 image_links
unfolding table
free_cluster_count_example =
    free_cluster_count_lem ram_store 64 small_volume ram_laws small_volume-IsFat disc_image
      image_links new_cache new_cache-Shows (omega arith)

clusters_inside : (c : ℕ) → cluster_first ≤ c → c ≤ 10 → cluster_to_sector small_volume c + 1 ≤ 64
unfolding cluster_to_sector
clusters_inside c lo hi = ground arith

link_free_cluster_cleared_example :
    (r : ℕ × Volume ram_store) × (link_free_cluster ram_store small_volume mounted 3 ≡ some r)
    × ((Unlinked ram_store 64 small_volume ram_laws small_volume-IsFat disc_image image_links 3
          × Full ram_store 64 small_volume ram_laws small_volume-IsFat disc_image image_links
              mounted r
          × (link_free_cluster_cleared ram_store small_volume mounted 3
              ≡ some (cluster_error, r.1)))
        ⊎ ((Kept ram_store 64 small_volume ram_laws small_volume-IsFat disc_image image_links
                mounted 3 r
              ⊎ (Unlinked ram_store 64 small_volume ram_laws small_volume-IsFat disc_image
                    image_links 3
                  × Allocated ram_store 64 small_volume ram_laws small_volume-IsFat disc_image
                      image_links mounted 3 r))
            × ClearedNew ram_store 64 small_volume ram_laws small_volume-IsFat disc_image
                image_links r
                (link_free_cluster_cleared ram_store small_volume mounted 3)))
link_free_cluster_cleared_example =
    link_free_cluster_cleared-ClearedNew ram_store 64 small_volume ram_laws small_volume-IsFat
      disc_image image_links mounted 3 new_cache-Shows (omega arith) (omega arith) (omega arith)
      clusters_inside
