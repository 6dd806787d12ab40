-- ===== src/File/Write/Kept.antt =====
-- What the stages of `_FAT_write_r` keep, where the file has the clusters already: the bytes written
-- so far, the bytes that are not, and the table.
use libfat.Base.{ℕ, ◌+◌, ◌-◌, ◌*◌, ◌≤◌, ◌<◌, ◌≡◌, ◌⊎◌, inl, inr, true, arith, ap, ◌∙◌, Buffer}
use native.Mathlib.Decide.{dec_lt}
use libfat.Cache.Invariant.{Sectors}
use libfat.Cache.Sector.Partial.{put_bytes}
use libfat.Cache.Run.Writing.{put_run}
use libfat.Store.{SectorStore, IsStore}
use libfat.Partition.State.{Partition}
use libfat.Fat.Entry.{cluster_first, cluster_to_sector}
use libfat.Fat.Table.{table}
use libfat.File.State.{Errno, position_sector, at_ptr}
use libfat.File.Content.{IsData, IsClusters, IsAt, content, cluster_to_sector-valid}
use libfat.File.Layout.Puts.{content-put_bytes, content-put_run}
use libfat.File.Write.Stages.{Writing}

module _ (store : SectorStore) (size : ℕ) (p : Partition)
    (laws : IsStore store size p.bytes_per_sector) (d : IsData p size) (base : Sectors) (cl : ℕ → ℕ)
    (m : ℕ) (clusters : IsClusters p (table base p) cl m) (start len : ℕ) (buffer : Buffer)
    (bytes : (k : ℕ) → buffer k < 256) (errno : Errno) where
  open p use {bytes_per_sector, sectors_per_cluster, bytes_per_cluster}

  -- The array `s` has the first `n` bytes of the buffer from offset `start` of the file on, and is
  -- `base` at the other offsets of the file and before the data area.
  pub record IsPut (n : ℕ) (s : Sectors) : Type 0 where
    pub written : (k : ℕ) → k < n → content s p cl (start + k) ≡ buffer k
    pub kept :
        (pos : ℕ)
        → pos < m * bytes_per_cluster
        → (pos < start) ⊎ (start + n ≤ pos)
        → content s p cl pos ≡ content base p cl pos
    pub below : (t o : ℕ) → t < p.data_start → s t o ≡ base t o

  pub record Put (x : Writing store p) : Type 0 where
    pub after : Sectors
    pub holds : laws.Holds x.volume.cache after
    pub put : IsPut x.ptr after
    pub fine : x.no_error ≡ true
    pub kept_errno : x.errno ≡ errno
    pub sum : x.ptr + x.remain ≡ len
    pub at : IsAt p cl m x.position (start + x.ptr)

  -- `n` more bytes, at offset `from` of the file.
  more-IsPut :
      (ptr n : ℕ) (s s' : Sectors)
      → start + ptr + n ≤ m * bytes_per_cluster
      → IsPut ptr s
      → ((pos : ℕ)
          → pos < m * bytes_per_cluster
          → (start + ptr ≤ pos
              → pos < start + ptr + n
              → content s' p cl pos ≡ at_ptr buffer ptr (pos - (start + ptr)))
            × ((pos < start + ptr) ⊎ (start + ptr + n ≤ pos)
                → content s' p cl pos ≡ content s p cl pos))
      → ((t o : ℕ) → t < p.data_start → s' t o ≡ s t o)
      → IsPut (ptr + n) s'
  more-IsPut ptr n s s' room i bytes_ below = record {
    written = λ k h. elim (dec_lt k ptr) [
      | yes early ↦ (bytes_ (start + k) (omega arith)).1 (inl (omega arith)) ∙ i.written k early
      | no late ↦
          let back : ptr + (start + k - (start + ptr)) ≡ k = omega arith in
          (bytes_ (start + k) (omega arith)).0 (omega arith) (omega arith) ∙ ap buffer back
    ];
    kept = λ pos h out. elim (dec_lt pos start) [
      | yes before ↦ (bytes_ pos h).1 (inl (omega arith)) ∙ i.kept pos h (inl before)
      | no behind ↦
          let end : start + (ptr + n) ≤ pos = ground (arith, out) in
          (bytes_ pos h).1 (inr (omega arith)) ∙ i.kept pos h (inr (omega arith))
    ];
    below = λ t o h. below t o h ∙ i.below t o h;
  }

  module _ (x : Writing store p) (g : Put x) (bound : start + len ≤ m * bytes_per_cluster) where
    module _ (inside : x.position.sector < sectors_per_cluster) where
      pub write_sector-valid :
          (position_sector p x.position ≡ cluster_to_sector p (cl g.at.index) + x.position.sector)
          × (position_sector p x.position < size)
          × (p.data_start ≤ position_sector p x.position)
      write_sector-valid =
          let (lo, hi) = clusters.valid g.at.index g.at.inside in
          let (e, room) = cluster_to_sector-valid p size d (cl g.at.index) lo hi in
          rw g.at.cluster (
            omega (arith, d.fat.no_wrap),
            omega (arith, d.fat.no_wrap),
            omega (arith, d.fat.no_wrap, e),
          )

      -- A part of the sector that the position is in.
      pub part-IsPut :
          (byte n : ℕ)
          → x.position.byte ≡ byte
          → byte + n ≤ bytes_per_sector
          → n ≤ x.remain
          → let sector = position_sector p x.position in
            let from = at_ptr buffer x.ptr in
            laws.Holds
              (store.write_partial_sector x.volume.cache from sector byte n).state
              (put_bytes g.after sector byte n from)
            × IsPut (x.ptr + n) (put_bytes g.after sector byte n from)
      part-IsPut byte n same fits le =
          let i = g.at.index in
          let j = x.position.sector in
          let from = at_ptr buffer x.ptr in
          let (e, lt, behind) = write_sector-valid in
          let (_, h) =
            laws.writes_part x.volume.cache g.after from (position_sector p x.position) byte n
              g.holds (λ k hk. bytes (x.ptr + k)) lt fits in
          let here : start + x.ptr ≡ i * bytes_per_cluster + j * bytes_per_sector + byte =
            omega (arith, g.at.offset, same) in
          (
            h,
            more-IsPut x.ptr n g.after
                (put_bytes g.after (position_sector p x.position) byte n from)
                (omega (arith, g.sum)) g.put
                (rw (e, here)
                  (content-put_bytes p size d (table base p) cl m clusters i j byte n g.at.inside
                    inside fits g.after from))
                (λ t o below. ground (arith, behind)),
          )

    -- `n` whole sectors from sector `j` of the clusters that follow one another from cluster `i` of
    -- the file on, `c` of them.
    module _ (i c j n : ℕ) (next : (k : ℕ) → k < c → cl (i + k) ≡ cl i + k)
        (lo : cluster_first ≤ cl i) (hi : cl i + c ≤ p.fat.last_cluster + 1) (some_of_it : 0 < c)
        (room : j + n ≤ c * sectors_per_cluster) (in_file : i + c ≤ m)
        (here : start + x.ptr ≡ i * bytes_per_cluster + j * bytes_per_sector)
        (le : n * bytes_per_sector ≤ x.remain)
        (inside : cluster_to_sector p (cl i) + j + n ≤ size) where
      pub run-IsPut :
          let first = cluster_to_sector p (cl i) + j in
          let from = at_ptr buffer x.ptr in
          let r = store.write_sectors x.volume.cache first n from in
          let s' = put_run bytes_per_sector g.after first n from 0 in
          (r.ok ≡ true) × laws.Holds r.state s' × IsPut (x.ptr + n * bytes_per_sector) s'
      run-IsPut =
          let first = cluster_to_sector p (cl i) + j in
          let from = at_ptr buffer x.ptr in
          let (ok, h) =
            laws.writes_sectors x.volume.cache g.after from first n g.holds (λ k. bytes (x.ptr + k))
              inside in
          let (e, _) = cluster_to_sector-valid p size d (cl i) lo (omega arith) in
          (
            ok,
            h,
            more-IsPut x.ptr (n * bytes_per_sector) g.after
                (put_run bytes_per_sector g.after first n from 0) (omega (arith, g.sum)) g.put
                (rw here (
                  content-put_run p size d (table base p) cl m clusters i c j n next lo hi room
                    in_file g.after from))
                (λ t o below. ground (arith, e)),
          )
