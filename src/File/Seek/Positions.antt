-- ===== src/File/Seek/Positions.antt =====
-- After `_FAT_seek_r` the read position stands for the offset that it was moved to.
use libfat.Base.{
  ℕ, zero, suc, ◌+◌, ◌-◌, ◌*◌, ◌/◌, ◌%◌, ◌^◌, ◌≤◌, ◌<◌, ◌≡◌, ◌≢◌, ◌⊎◌, inl, inr, true, false, ◌&&◌,
  not, some, arith, leb, ltb, ◌==◌, if◌then◌else◌, ap, refl, ◌∙◌, sym,
}
use native.Mathlib.Nat.{le-div_iff_mul-le}
use native.Mathlib.Decide.{dec_lt, dec_le}
use libfat.Cache.Invariant.{Sectors}
use libfat.Store.{SectorStore, IsStore}
use libfat.Partition.State.{Partition}
use libfat.Fat.Entry.{cluster_free, cluster_eof, next_cluster}
use libfat.Fat.Entry.Places.{mod_bounds, div_mod_unique, has_entry}
use libfat.Fat.Entry.Next.{next_cluster-table}
use libfat.Fat.Table.{table}
use libfat.Fat.Chain.Clear.{IsFat-small}
use libfat.File.State.{FileStruct, Errno, file_max_size}
use libfat.File.Content.{
  IsData, IsClusters, IsAt, some_cluster, offset_parts, div_le, some_bytes, sector_fits,
}
use libfat.File.Seek.{
  ℤ, pos, Whence, Walked, walk, walk_start, SeekCall, seek_end_walk, seek_to, seek_r, seek_checked,
  checked_position, new_position,
}

module _ (store : SectorStore) (size : ℕ) (p : Partition)
    (laws : IsStore store size p.bytes_per_sector) (d : IsData p size) (sectors : Sectors)
    (cl : ℕ → ℕ) (m : ℕ) (clusters : IsClusters p (table sectors p) cl m) where
  open p use {bytes_per_sector, sectors_per_cluster, bytes_per_cluster}

  pub next_in_file :
      (st : store.State) (c i : ℕ)
      → laws.Holds st sectors
      → i < m
      → c ≡ cl i
      → let r = next_cluster store p st c in (r.0 ≡ table sectors p c) × laws.Holds r.1 sectors
  next_in_file st c i h inside e =
      next_cluster-table store size p laws d.fat st sectors c h
        (has_entry p size d.fat c (omega (arith, clusters.valid i inside)))

  -- A walk of `n` clusters from cluster `i` of the file on: it gets there, or it ends at the last
  -- cluster with one to go.
  record IsWalked (i n : ℕ) (w : Walked store p) : Type 0 where
    at :
        ((i + n < m) × (w.left ≡ 0) × (w.cluster ≡ cl (i + n)))
        ⊎ ((i + n ≡ m) × (w.left ≡ 1) × (w.cluster ≡ cl (m - 1)))
    holds : laws.Holds w.cache sectors

  walk-IsWalked :
      (n : ℕ) (st : store.State) (c next i : ℕ)
      → laws.Holds st sectors
      → i + n ≤ m
      → i < m
      → c ≡ cl i
      → next ≡ table sectors p c
      → IsWalked i n (walk store p n st c next)
  unfolding walk
  walk-IsWalked zero st c next i h le lt e l = record {
    at = inl (omega arith, refl, e ∙ ap cl (omega arith));
    holds = h;
  }
  walk-IsWalked (suc n) st c next i h le lt e l = elim (dec_lt (i + 1) m) [
    | yes more ↦
        let s : next ≡ cl (i + 1) = l ∙ ap (table sectors p) e ∙ clusters.linked i more in
        let (lo, hi) = clusters.valid (i + 1) more in
        let t : (not (next == cluster_free) && not (next == cluster_eof)) ≡ true =
          ground (arith, IsFat-small d.fat) in
        let (l', h') = next_in_file st next (i + 1) h more s in
        let r = next_cluster store p st next in
        let w = walk-IsWalked n r.1 next r.0 (i + 1) h' (omega arith) more s l' in
        let assoc : i + 1 + n ≡ i + suc n = omega arith in
        rw t (record { at = rw (sym assoc) w.at; holds = w.holds })
    | no last ↦
        let s : next ≡ cluster_eof = l ∙ ap (table sectors p) e ∙ clusters.ends i (omega arith) in
        let t : (not (next == cluster_free) && not (next == cluster_eof)) ≡ false = ground arith in
        rw t (record { at = inr (omega arith, omega arith, e ∙ ap cl (omega arith)); holds = h })
  ]

  from_current :
      (file : FileStruct) (n : ℕ)
      → file.current_position ≤ n
      → (a : IsAt p cl m file.rw_position file.current_position)
      → let at_end : ℕ = if file.rw_position.sector == sectors_per_cluster then 1 else 0 in
        a.index + (n / bytes_per_cluster + at_end - file.current_position / bytes_per_cluster)
        ≡ n / bytes_per_cluster
  from_current file n on a =
      let cur = file.current_position in
      let q = file.rw_position in
      let i = a.index in
      let reached : i ≤ n / bytes_per_cluster =
        (le-div_iff_mul-le (some_cluster p size d)).1 (omega (arith, a.offset)) in
      elim a.sector [
        | inl inside ↦
            let t : (q.sector == sectors_per_cluster) ≡ false = ground arith in
            let (e, _) =
              div_mod_unique cur i (q.sector * bytes_per_sector + q.byte) bytes_per_cluster
                (omega (arith, a.offset))
                (omega (arith, a.byte, sector_fits p size d q.sector inside)) in
            rw (t, e) (omega arith)
        | inr (full, b) ↦
            let t : (q.sector == sectors_per_cluster) ≡ true = ground arith in
            let (e, _) =
              div_mod_unique cur (i + 1) 0 bytes_per_cluster
                (omega
                  (arith, a.offset, b, d.cluster_size, ap (λ (k : ℕ). k * bytes_per_sector) full))
                (some_cluster p size d) in
            rw (t, e) (omega arith)
      ]

  -- The walk that a seek makes goes to the cluster of the new offset.
  walk_start_lem :
      (file : FileStruct) (n : ℕ)
      → cl 0 ≡ file.start_cluster
      → 0 < m
      → (file.current_position ≤ n → IsAt p cl m file.rw_position file.current_position)
      → let r = walk_start store p file n in
        (i : ℕ) × (i < m) × (r.1 ≡ cl i) × (i + r.0 ≡ n / bytes_per_cluster)
  unfolding walk_start
  walk_start_lem file n first some_clusters at = elim (dec_le file.current_position n) [
    | yes on ↦
        let a = at on in
        let t : leb file.current_position n ≡ true = ground arith in
        rw t (a.index, a.inside, a.cluster, from_current file n on a)
    | no back ↦
        let t : leb file.current_position n ≡ false = ground arith in
        rw t (0, some_clusters, sym first, omega arith)
  ]

  -- What a seek to offset `n` leaves.
  pub record IsSought (errno : Errno) (file : FileStruct) (n : ℕ) (c : SeekCall store p)
      : Type 0 where
    pub returned : c.returned ≡ some n
    pub position : IsAt p cl m c.file.rw_position n
    pub before_end : n < m * bytes_per_cluster → c.file.rw_position.sector < sectors_per_cluster
    pub rest : c.file ≡ record file { rw_position = c.file.rw_position; current_position = n }
    pub kept_errno : c.errno ≡ errno
    pub holds : laws.Holds c.cache sectors

  seek_end_walk-IsSought :
      (errno : Errno) (file : FileStruct) (n i : ℕ) (w : Walked store p)
      → n ≤ file.filesize
      → file.filesize ≤ m * bytes_per_cluster
      → (k : ℕ) → i + k ≡ n / bytes_per_cluster
      → 0 < m
      → IsWalked i k w
      → IsSought errno file n (seek_end_walk store p errno file n w)
  unfolding seek_end_walk
  seek_end_walk-IsSought errno file n i w le whole k e some_clusters walked =
      let (parts, inside, byte) = offset_parts p size d n in
      elim walked.at [
        | inl (lt, none_left, at) ↦
            let t : (w.left == 0) ≡ true = ground arith in
            rw t (record {
              returned = refl;
              position = record {
                index = i + k;
                inside = lt;
                cluster = at;
                offset = omega (arith, parts, ap (λ (j : ℕ). j * bytes_per_cluster) e);
                byte = byte;
                sector = inl inside;
              };
              before_end = λ h. inside;
              rest = refl;
              kept_errno = refl;
              holds = walked.holds;
            })
        | inr (end, one_left, at) ↦
            let (parts', _) = mod_bounds n bytes_per_cluster (some_cluster p size d) in
            let quotient : n / bytes_per_cluster * bytes_per_cluster ≡ m * bytes_per_cluster =
              ap (λ (j : ℕ). j * bytes_per_cluster) (sym e ∙ end) in
            let all : n ≡ m * bytes_per_cluster = omega (arith, parts', quotient, le, whole) in
            let (z, _) =
              div_mod_unique (n % bytes_per_cluster) 0 0 bytes_per_sector
                (omega (arith, parts', quotient, all)) (some_bytes p size d) in
            let before : m * bytes_per_cluster ≡ (m - 1 + 1) * bytes_per_cluster =
              ap (λ (j : ℕ). j * bytes_per_cluster) (omega arith) in
            let t : (w.left == 0) ≡ false = ground arith in
            let t' : (w.left == 1
                  && file.filesize == n
                  && n % bytes_per_cluster / bytes_per_sector == 0)
                ≡ true =
              ground (arith, z, one_left, all, le, whole) in
            rw (t, t')
              (record {
                returned = refl;
                position = record {
                  index = m - 1;
                  inside = omega arith;
                  cluster = at;
                  offset = omega (arith, all, before, d.cluster_size);
                  byte = some_bytes p size d;
                  sector = inr (refl, refl);
                };
                before_end = λ h. absurd (omega (arith, all));
                rest = refl;
                kept_errno = refl;
                holds = walked.holds;
              })
      ]

  seek_to-IsSought :
      (st : store.State) (errno : Errno) (file : FileStruct) (n : ℕ)
      → laws.Holds st sectors
      → 0 < m
      → cl 0 ≡ file.start_cluster
      → file.start_cluster ≢ cluster_free
      → n ≤ file.filesize
      → file.filesize ≤ m * bytes_per_cluster
      → (file.current_position ≤ n → IsAt p cl m file.rw_position file.current_position)
      → IsSought errno file n (seek_to store p st errno file n)
  unfolding seek_to
  seek_to-IsSought st errno file n h some_clusters first started le whole at =
      let (i, inside, c, e) = walk_start_lem file n first some_clusters at in
      let (count, cluster) = walk_start store p file n in
      let (l, h') = next_in_file st cluster i h inside c in
      let (next, st') = next_cluster store p st cluster in
      let t : (leb n file.filesize && not (file.start_cluster == cluster_free)) ≡ true =
        ground (arith, started) in
      let fits : i + count ≤ m =
        rw e (div_le n bytes_per_cluster m (some_cluster p size d) (omega arith)) in
      rw t (
        seek_end_walk-IsSought errno file n i (walk store p count st' cluster next) le whole count e
          some_clusters (walk-IsWalked count st' cluster next i h' fits inside c l))

  -- On a medium without faults and a file whose chain is whole and has room for its size: a seek to
  -- an offset that is not behind the end of the file returns that offset, and the read position then
  -- stands for it, where it stood for the current offset if the seek is not to before that. Nothing
  -- else of the file changes.
  pub seek_r-IsSought :
      (st : store.State) (errno : Errno) (file : FileStruct) (offset : ℤ) (whence : Whence) (n : ℕ)
      → laws.Holds st sectors
      → 0 < m
      → file.in_use ≡ true
      → cl 0 ≡ file.start_cluster
      → file.start_cluster ≢ cluster_free
      → new_position file offset whence ≡ some (pos n)
      → n ≤ file.filesize
      → file.filesize < 2 ^ 32
      → file.filesize ≤ m * bytes_per_cluster
      → (file.current_position ≤ n → IsAt p cl m file.rw_position file.current_position)
      → IsSought errno file n (seek_r store p st errno file offset whence)
  unfolding seek_r seek_checked checked_position
  seek_r-IsSought st errno file offset whence n h some_clusters used first started new le small
        whole at =
      let t : ltb file_max_size n ≡ false = ground arith in
      let u : not file.in_use ≡ false = ground (arith, used) in
      rw (u, new, t) (seek_to-IsSought st errno file n h some_clusters first started le whole at)
