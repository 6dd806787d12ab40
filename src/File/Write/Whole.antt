-- ===== src/File/Write/Whole.antt =====
-- The stages of `_FAT_write_r` together, over bytes that a file has already.
use libfat.Base.{
  ℕ, ◌+◌, ◌*◌, ◌^◌, ◌≤◌, ◌<◌, ◌≡◌, ◌⊎◌, inl, inr, true, false, ◌&&◌, Buffer, some, arith, ltb, refl,
  ◌∙◌, sym, Bool-cases,
}
use native.Mathlib.Decide.{ℕ_discrete}
use libfat.Cache.Invariant.{Sectors}
use libfat.Cache.Sector.Partial.{put_bytes}
use libfat.Store.{SectorStore, IsStore}
use libfat.Partition.State.{Partition}
use libfat.Fat.Table.{table}
use libfat.File.State.{Errno, position_sector, at_ptr, to_sector_end, to_cluster_end}
use libfat.File.Content.{IsData, IsClusters, IsAt}
use libfat.File.Write.Stages.{
  Writing, write_check, write_to_sector, write_to_cluster, write_clusters, write_last_sectors,
  write_last_bytes, write_stages, write_rest, write_whole,
}
use libfat.File.Write.Kept.{IsPut, Put, part-IsPut}
use libfat.File.Write.Onward.{IsOnward, write_check-IsOnward}
use libfat.File.Write.Parts.{
  Ready, write_to_sector-Put, write_to_cluster-Put, write_last_sectors-Put,
}
use libfat.File.Write.Rounds.{write_clusters-Put}

module _ (store : SectorStore) (size : ℕ) (p : Partition)
    (laws : IsStore store size p.bytes_per_sector) (d : IsData p size) (base : Sectors) (cl : ℕ → ℕ)
    (m : ℕ) (clusters : IsClusters p (table base p) cl m) (buffer : Buffer)
    (bytes : (k : ℕ) → buffer k < 256) where
  open p use {bytes_per_sector, sectors_per_cluster, bytes_per_cluster}

  module _ (start len : ℕ) (errno : Errno) (bound : start + len ≤ m * bytes_per_cluster)
      (small : len + bytes_per_cluster < 2 ^ 32) where
    abbrev Here : Writing store p → Type 0
    Here x = Put store size p laws d base cl m clusters start len buffer bytes errno x

    abbrev IsReady : Writing store p → Type 0
    IsReady x = Ready store size p laws d base cl m clusters start len buffer bytes errno bound x

    onward-last :
        (x y : Writing store p)
        → IsReady x
        → IsOnward store size p laws d base cl m clusters start len buffer bytes errno bound x y
        → (y.remain ≡ 0)
          ⊎ ((y.position.byte ≡ 0)
              × (y.position.sector < sectors_per_cluster)
              × ((y.position.sector ≡ 0) ⊎ (y.remain < bytes_per_sector)))
    onward-last x y (inl z) o = inl (o.remain ∙ z)
    onward-last x y (inr (b, at)) o = elim o.inside [
      | inl z ↦ inl z
      | inr (inside, inr s) ↦ inr (o.byte ∙ b, inside, inl s)
      | inr (inside, inl same) ↦ elim at [
        | inl full ↦ absurd (omega (arith, same, full, inside))
        | inr (inl s) ↦ inr (o.byte ∙ b, inside, inl (same ∙ s))
        | inr (inr few) ↦ inr (o.byte ∙ b, inside, inr (omega (arith, o.remain, few)))
      ]
    ]

    -- Nothing is left: all `len` bytes are in the file.
    pub record Done (x : Writing store p) : Type 0 where
      pub after : Sectors
      pub holds : laws.Holds x.volume.cache after
      pub put : IsPut store size p laws d base cl m clusters start len buffer bytes errno len after
      pub kept_errno : x.errno ≡ errno
      pub none_left : x.remain ≡ 0
      pub at : IsAt p cl m x.position (start + len)

    Put-Done : (x : Writing store p) → Here x → x.remain ≡ 0 → Done x
    Put-Done x g z =
        let all : x.ptr ≡ len = omega (arith, g.sum) in
        record {
          after = g.after;
          holds = g.holds;
          put = record {
            written = λ k h. g.put.written k (omega arith);
            kept = λ pos h out. g.put.kept pos h (ground (arith, out));
            below = g.put.below;
          };
          kept_errno = g.kept_errno;
          none_left = z;
          at = rw (sym all) g.at;
        }

    write_last_bytes-Done :
        (x : Writing store p)
        → Here x
        → (x.remain ≡ 0)
          ⊎ ((x.position.byte ≡ 0)
              × (x.position.sector < sectors_per_cluster)
              × (x.remain < bytes_per_sector))
        → Done (write_last_bytes store p buffer false x)
    unfolding write_last_bytes
    write_last_bytes-Done x g (inl z) =
        let t : ltb 0 x.remain ≡ false = ground arith in rw t (Put-Done x g z)
    write_last_bytes-Done x g (inr (b, inside, few)) = elim (ℕ_discrete x.remain 0) [
      | yes z ↦ let t : ltb 0 x.remain ≡ false = ground arith in rw t (Put-Done x g z)
      | no ne ↦
          let t : ltb 0 x.remain ≡ true = ground arith in
          let (h, put) =
            part-IsPut store size p laws d base cl m clusters start len buffer bytes errno x g bound
              inside 0 x.remain b (omega arith) (omega arith) in
          rw (t, g.fine)
            (record {
              after =
                  put_bytes g.after (position_sector p x.position) 0 x.remain (at_ptr buffer x.ptr);
              holds = h;
              put = rw g.sum at put;
              kept_errno = g.kept_errno;
              none_left = refl;
              at = record {
                index = g.at.index;
                inside = g.at.inside;
                cluster = g.at.cluster;
                offset = omega (arith, g.at.offset, g.sum, b);
                byte = omega (arith, b);
                sector = inl inside;
              };
            })
    ]

    write_to_sector-remain :
        (x : Writing store p) → (write_to_sector store p buffer x).remain ≤ x.remain
    unfolding write_to_sector
    write_to_sector-remain x =
        let n = to_sector_end p x.position x.remain in
        elim (Bool-cases (ltb n bytes_per_sector && x.no_error)) [
          | inl t ↦ rw t (omega arith)
          | inr t ↦ rw t (omega arith)
        ]

    write_rest-remain :
        (x : Writing store p) (sector n : ℕ)
        → (write_rest store p buffer x sector n).remain ≤ x.remain
    unfolding write_whole
    write_rest-remain x sector n =
        let r = store.write_sectors x.volume.cache sector n (at_ptr buffer x.ptr) in
        elim (Bool-cases x.no_error) [
          | inr t ↦ rw t (omega arith)
          | inl t ↦ elim (Bool-cases r.ok) [
            | inl t' ↦ rw (t, t') (omega arith)
            | inr t' ↦ rw (t, t') (omega arith)
          ]
        ]

    write_to_cluster-remain :
        (x : Writing store p) → (write_to_cluster store p buffer x).remain ≤ x.remain
    unfolding write_to_cluster
    write_to_cluster-remain x =
        let n = to_cluster_end p x.position x.remain in
        elim (Bool-cases (ltb 0 n && ltb n sectors_per_cluster)) [
          | inl t ↦ rw t (write_rest-remain x (position_sector p x.position) n)
          | inr t ↦ rw t (omega arith)
        ]

    write_stages_lem :
        (x y z w : Writing store p)
        → write_check store p x ≡ some y
        → write_clusters store p buffer
            (y.remain + 1)
            (write_to_cluster store p buffer (write_to_sector store p buffer y))
          ≡ some z
        → write_check store p z ≡ some w
        → write_stages store p buffer false x
          ≡ some (write_last_bytes store p buffer false (write_last_sectors store p buffer w))
    unfolding write_stages
    write_stages_lem x y z w e e' e'' = rw (e, e', e'') refl

    pub write_stages-Done :
        (x : Writing store p)
        → Here x
        → 0 < x.remain
        → (y : Writing store p) × (write_stages store p buffer false x ≡ some y) × Done y
    write_stages-Done x g pos =
        let (x1, e1, o1) =
          write_check-IsOnward store size p laws d base cl m clusters start len buffer bytes errno
            bound x g in
        let inside : x1.position.sector < sectors_per_cluster = elim o1.inside [
          | inl z ↦ absurd (omega (arith, z, o1.remain))
          | inr (i, _) ↦ i
        ] in
        let (g2, aligned) =
          write_to_sector-Put store size p laws d base cl m clusters start len buffer bytes errno
            bound x1 o1.here inside in
        let x2 = write_to_sector store p buffer x1 in
        let (g3, ready) =
          write_to_cluster-Put store size p laws d base cl m clusters start len buffer bytes errno
            bound x2 g2 aligned in
        let x3 = write_to_cluster store p buffer x2 in
        let shorter = write_to_sector-remain x1 in
        let shorter' = write_to_cluster-remain x2 in
        let (x4, e4, g4, ready', few) =
          write_clusters-Put store size p laws d base cl m clusters buffer bytes start len errno
            bound small (x1.remain + 1) x3 g3 ready (omega (arith, shorter, shorter')) in
        let (x5, e5, o5) =
          write_check-IsOnward store size p laws d base cl m clusters start len buffer bytes errno
            bound x4 g4 in
        let (g6, left) =
          write_last_sectors-Put store size p laws d base cl m clusters start len buffer bytes errno
            bound x5 o5.here (onward-last x4 x5 ready' o5) (omega (arith, few, o5.remain)) in
        let x6 = write_last_sectors store p buffer x5 in
        (
          write_last_bytes store p buffer false x6,
          write_stages_lem x x1 x4 x5 e1 e4 e5,
          write_last_bytes-Done x6 g6 left,
        )
