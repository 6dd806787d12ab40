-- ===== src/File/Write/Rounds.antt =====
-- The loop of `_FAT_write_r` over whole clusters, where the file has the clusters already.
use libfat.Base.{
  ℕ, zero, suc, ◌+◌, ◌*◌, ◌^◌, ◌≤◌, ◌<◌, ◌≡◌, ◌⊎◌, inl, inr, Bool, true, false, ◌&&◌, Buffer, some,
  arith, leb, ap, refl, ◌∙◌,
}
use native.Mathlib.Decide.{dec_le}
use libfat.Cache.Invariant.{Sectors}
use libfat.Cache.Sector.Update.{row_after}
use libfat.Store.{SectorStore, IsStore}
use libfat.Partition.State.{Partition}
use libfat.Fat.Table.{table}
use libfat.File.State.{Errno}
use libfat.File.Content.{IsData, IsClusters, some_cluster_bytes}
use libfat.File.Write.Stages.{
  Writing, Group, group_clusters, write_group, write_check, write_clusters,
}
use libfat.File.Write.Kept.{Put}
use libfat.File.Write.Onward.{write_check-IsOnward}
use libfat.File.Write.Parts.{Ready}
use libfat.File.Write.Groups.{group_clusters-IsGroup, write_group-Put}

module _ (store : SectorStore) (size : ℕ) (p : Partition)
    (laws : IsStore store size p.bytes_per_sector) (d : IsData p size) (base : Sectors) (cl : ℕ → ℕ)
    (m : ℕ) (clusters : IsClusters p (table base p) cl m) (buffer : Buffer)
    (bytes : (k : ℕ) → buffer k < 256) where
  open p use {bytes_per_sector, sectors_per_cluster, bytes_per_cluster}

  module _ (start len : ℕ) (errno : Errno) (bound : start + len ≤ m * bytes_per_cluster)
      (small : len + bytes_per_cluster < 2 ^ 32) where
    abbrev Here : Writing store p → Type 0
    Here x = Put store size p laws d base cl m clusters start len buffer bytes errno x

    abbrev IsReady : Writing store p → Type 0
    IsReady x = Ready store size p laws d base cl m clusters start len buffer bytes errno bound x

    border_or_start :
        (x : Writing store p)
        → IsReady x
        → bytes_per_sector ≤ x.remain
        → (x.position.byte ≡ 0)
          × ((x.position.sector ≡ sectors_per_cluster) ⊎ (x.position.sector ≡ 0))
    border_or_start x (inl z) many = absurd (omega (arith, d.fat.some_bytes))
    border_or_start x (inr (b, inl full)) many = (b, inl full)
    border_or_start x (inr (b, inr (inl s))) many = (b, inr s)
    border_or_start x (inr (b, inr (inr few))) many = absurd (omega arith)

    start_of_cluster :
        (x y : Writing store p)
        → 0 < y.remain
        → (x.position.sector ≡ sectors_per_cluster) ⊎ (x.position.sector ≡ 0)
        → (y.remain ≡ 0)
          ⊎ ((y.position.sector < sectors_per_cluster)
              × ((y.position.sector ≡ x.position.sector) ⊎ (y.position.sector ≡ 0)))
        → y.position.sector ≡ 0
    start_of_cluster x y pos at (inl z) = absurd (omega arith)
    start_of_cluster x y pos at (inr (inside, inr s)) = s
    start_of_cluster x y pos (inr z) (inr (inside, inl s)) = s ∙ z
    start_of_cluster x y pos (inl full) (inr (inside, inl s)) = absurd (omega arith)

    round-Ready :
        (x : Writing store p)
        → x.position.byte ≡ 0
        → (x.position.sector ≡ sectors_per_cluster) ⊎ (x.position.sector ≡ 0)
        → IsReady x
    round-Ready x b (inl full) = inr (b, inl full)
    round-Ready x b (inr z) = inr (b, inr (inl z))

    unfoldable start_group : Writing store p → Group store p buffer
    start_group y = record {
      writing = y;
      next_position = y.position;
      chunk_end = y.position.cluster;
      next_chunk_start = y.position.cluster;
      chunk_size = bytes_per_cluster;
    }

    write_clusters-round :
        (fuel : ℕ) (x y : Writing store p) (gr : Group store p buffer)
        → (leb bytes_per_cluster x.remain && x.no_error) ≡ true
        → write_check store p x ≡ some y
        → y.no_error ≡ true
        → group_clusters store p buffer (suc fuel) (start_group y) ≡ some gr
        → write_clusters store p buffer (suc fuel) x
          ≡ write_clusters store p buffer fuel (write_group store p buffer gr)
    unfolding write_clusters start_group
    write_clusters-round fuel x y gr t e f e' = rw (t, e, e', f) refl

    started_fine :
        (y : Writing store p)
        → y.no_error ≡ true
        → start_group y ≡ start_group (record y { no_error = true })
    unfolding start_group
    started_fine y f = ap (λ (b : Bool). start_group (record y { no_error = b })) f

    pub write_clusters-Put :
        (fuel : ℕ) (x : Writing store p)
        → Here x
        → IsReady x
        → x.remain ≤ fuel
        → (y : Writing store p) × (write_clusters store p buffer fuel x ≡ some y)
          × Here y
          × IsReady y
          × (y.remain < bytes_per_cluster)
    unfolding write_clusters start_group
    write_clusters-Put zero x g ready le =
        let least = d.fat.some_bytes in
        let t : leb bytes_per_cluster x.remain ≡ false =
          ground (arith, least, some_cluster_bytes p size d) in
        rw t (x, refl, g, ready, omega (arith, least, some_cluster_bytes p size d))
    write_clusters-Put (suc fuel) x g ready le = elim (dec_le bytes_per_cluster x.remain) [
      | no few ↦
          let t : leb bytes_per_cluster x.remain ≡ false = ground arith in
          rw t (x, refl, g, ready, omega arith)
      | yes many ↦
          let least = d.fat.some_bytes in
          let wide = some_cluster_bytes p size d in
          let t : (leb bytes_per_cluster x.remain && x.no_error) ≡ true = ground (arith, g.fine) in
          let (b, at) = border_or_start x ready (omega (arith, wide)) in
          let (y, e, o) =
            write_check-IsOnward store size p laws d base cl m clusters start len buffer bytes errno
              bound x g in
          let h = o.here in
          let b' : y.position.byte ≡ 0 = o.byte ∙ b in
          let z : y.position.sector ≡ 0 =
            start_of_cluster x y (omega (arith, o.remain, wide, least)) at o.inside in
          let i = h.at.index in
          let pos : start + y.ptr ≡ i * bytes_per_cluster =
            omega (arith, h.at.offset, b', ap (λ (k : ℕ). k * bytes_per_sector) z) in
          let one : (k : ℕ) → k < 1 → cl (i + k) ≡ cl i + k =
            λ k hk. let w : i + k ≡ i = omega arith in ap cl w ∙ omega arith in
          let first : cl i ≡ cl (i + 0) = ap cl (omega arith) in
          let enough = row_after (suc fuel) 0 bytes_per_cluster (omega (arith, least, wide)) in
          let at_first = h.at.cluster ∙ first in
          let (gr, e', ig) =
            group_clusters-IsGroup store size p laws d base cl m clusters buffer y h.after i
              h.put.below (suc fuel) y.volume y.position y.position.cluster y.position.cluster
              bytes_per_cluster 0 h.holds (omega (arith, h.at.inside)) one at_first at_first
              at_first (omega arith) (omega (arith, many, o.remain))
              (omega (arith, pos, h.sum, bound)) (omega (arith, h.sum, small))
              (omega (arith, le, enough, o.remain)) in
          let (h', left, byte, at') =
            write_group-Put store size p laws d base cl m clusters start len buffer bytes errno
              bound y gr h b' z ig in
          let next = write_group store p buffer gr in
          let (r, e'', hr, ready', few) =
            write_clusters-Put fuel next h' (round-Ready next byte at') (
              omega (
                arith,
                left,
                o.remain,
                many,
                wide,
                least,
                le,
                ig.bytes,
                row_after (ig.more + 1) 0 bytes_per_cluster (omega arith),
              )) in
          let group = ap (group_clusters store p buffer (suc fuel)) (started_fine y h.fine) ∙ e' in
          (r, write_clusters-round fuel x y gr t e h.fine group ∙ e'', hr, ready', few)
    ]
