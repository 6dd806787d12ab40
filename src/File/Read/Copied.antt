-- ===== src/File/Read/Copied.antt =====
-- The copies of `_FAT_read_r`: what is in the caller's buffer after a part of a sector and after a run
-- of whole sectors.
use libfat.Base.{
  ℕ, ◌+◌, ◌-◌, ◌*◌, ◌/◌, ◌%◌, ◌≤◌, ◌<◌, ◌≡◌, Bool, true, Buffer, arith, ap, refl, ◌∙◌, sym,
}
use native.Mathlib.Decide.{dec_lt}
use libfat.Cache.Invariant.{Sectors}
use libfat.Store.{SectorStore, IsStore}
use libfat.Partition.State.{Partition}
use libfat.Fat.Entry.{cluster_first, cluster_to_sector}
use libfat.Fat.Entry.Places.{mod_bounds, div_lt}
use libfat.Fat.Table.{table}
use libfat.File.State.{Errno, position_sector, at_ptr, with_ptr}
use libfat.File.Content.{
  IsData, IsClusters, IsAt, content, content_at, content_run, cluster_to_sector-valid, some_bytes,
}
use libfat.File.Read.{Reading, read_whole}

module _ (store : SectorStore) (size : ℕ) (p : Partition)
    (laws : IsStore store size p.bytes_per_sector) (d : IsData p size) (sectors : Sectors)
    (cl : ℕ → ℕ) (m : ℕ) (clusters : IsClusters p (table sectors p) cl m) (start len : ℕ)
    (errno : Errno) where
  open p use {bytes_per_sector, sectors_per_cluster, bytes_per_cluster}

  -- Between the stages: `x.ptr` bytes from offset `start` of the file on are in the buffer, and the
  -- position stands for the offset behind them.
  pub record Got (x : Reading store p) : Type 0 where
    pub holds : laws.Holds x.cache sectors
    pub fine : x.no_error ≡ true
    pub kept_errno : x.errno ≡ errno
    pub sum : x.ptr + x.remain ≡ len
    pub at : IsAt p cl m x.position (start + x.ptr)
    pub copied : (k : ℕ) → k < x.ptr → x.buffer k ≡ content sectors p cl (start + k)

  module _ (x : Reading store p) (g : Got x) where
    abbrev pub part : ℕ → ℕ → record { ok : Bool; buffer : Buffer; state : store.State }
    part byte n =
        store.read_partial_sector x.cache (at_ptr x.buffer x.ptr) (position_sector p x.position)
          byte n

    module _ (inside : x.position.sector < sectors_per_cluster) where
      pub position_sector-valid :
          (position_sector p x.position ≡ cluster_to_sector p (cl g.at.index) + x.position.sector)
          × (position_sector p x.position < size)
      position_sector-valid =
          let (lo, hi) = clusters.valid g.at.index g.at.inside in
          let (e, room) = cluster_to_sector-valid p size d (cl g.at.index) lo hi in
          rw (g.at.cluster) (omega (arith, d.fat.no_wrap), omega (arith, d.fat.no_wrap))

      -- A part of the sector that the position is in.
      pub part_copied :
          (byte n : ℕ)
          → x.position.byte ≡ byte
          → byte + n ≤ bytes_per_sector
          → laws.Holds (part byte n).state sectors
            × ((k : ℕ)
                → k < x.ptr + n
                → with_ptr x.buffer x.ptr (part byte n).buffer k ≡ content sectors p cl (start + k))
      part_copied byte n same fits =
          let (e, lt) = position_sector-valid in
          let (ok, read, h) =
            laws.reads_part x.cache sectors (at_ptr x.buffer x.ptr) (position_sector p x.position)
              byte n g.holds lt fits in
          (
            h,
            λ k hk. elim (dec_lt k x.ptr) [
              | yes early ↦ ground (arith, g.copied k early)
              | no late ↦
                  let o = byte + (k - x.ptr) in
                  let pos : start + k
                      ≡ g.at.index * bytes_per_cluster + x.position.sector * bytes_per_sector + o =
                    omega (arith, g.at.offset, same) in
                  let c =
                    content_at p size d sectors cl g.at.index x.position.sector o inside
                      (omega arith) in
                  let b : with_ptr x.buffer x.ptr (part byte n).buffer k
                      ≡ (part byte n).buffer (k - x.ptr) =
                    ground arith in
                  b
                  ∙ read (k - x.ptr) (omega arith)
                  ∙ ap (λ (t : ℕ). sectors t o) e
                  ∙ sym (ap (content sectors p cl) pos ∙ c)
            ],
          )

    -- `n` whole sectors from sector `j` of the clusters that follow one another from cluster `i` of
    -- the file on, `c` of them.
    module _ (i c j n : ℕ) (next : (k : ℕ) → k < c → cl (i + k) ≡ cl i + k)
        (lo : cluster_first ≤ cl i) (hi : cl i + c ≤ p.fat.last_cluster + 1)
        (room : j + n ≤ c * sectors_per_cluster)
        (pos : start + x.ptr ≡ i * bytes_per_cluster + j * bytes_per_sector)
        (inside : cluster_to_sector p (cl i) + j + n ≤ size) where
      abbrev run : record { ok : Bool; buffer : Buffer; state : store.State }
      run = store.read_sectors x.cache (cluster_to_sector p (cl i) + j) n (at_ptr x.buffer x.ptr)

      run_read :
          (run.ok ≡ true)
          × ((k o : ℕ)
              → k < n
              → o < bytes_per_sector
              → run.buffer (k * bytes_per_sector + o)
                ≡ sectors (cluster_to_sector p (cl i) + j + k) o)
          × laws.Holds run.state sectors
      run_read =
          laws.reads_sectors x.cache sectors (at_ptr x.buffer x.ptr)
            (cluster_to_sector p (cl i) + j) n g.holds inside

      pub run_copied :
          (k : ℕ)
          → k < x.ptr + n * bytes_per_sector
          → with_ptr x.buffer x.ptr run.buffer k ≡ content sectors p cl (start + k)
      run_copied k hk = elim (dec_lt k x.ptr) [
        | yes early ↦ ground (arith, g.copied k early)
        | no late ↦
            let t = (k - x.ptr) / bytes_per_sector in
            let o = (k - x.ptr) % bytes_per_sector in
            let (e, lt) = mod_bounds (k - x.ptr) bytes_per_sector (some_bytes p size d) in
            let below : t < n =
              div_lt (k - x.ptr) bytes_per_sector n (some_bytes p size d) (omega arith) in
            let pos' : start + k ≡ i * bytes_per_cluster + (j + t) * bytes_per_sector + o =
              omega (arith, e, pos) in
            let c' = content_run p size d sectors cl i c (j + t) o next lo hi (omega arith) lt in
            let b : with_ptr x.buffer x.ptr run.buffer k ≡ run.buffer (k - x.ptr) = ground arith in
            b
            ∙ ap run.buffer e
            ∙ run_read.1 t o below lt
            ∙ ap (λ (s : ℕ). sectors s o) (omega arith)
            ∙ sym (ap (content sectors p cl) pos' ∙ c')
      ]

      abbrev pub run_end : Reading store p
      run_end = record x {
        cache = run.state;
        buffer = with_ptr x.buffer x.ptr run.buffer;
        ptr = x.ptr + n * bytes_per_sector;
        remain = x.remain - n * bytes_per_sector;
      }

      -- What the code does then.
      pub run_done :
          (read_whole store p x (cluster_to_sector p (cl i) + j) n ≡ run_end)
          × laws.Holds run.state sectors
      unfolding read_whole
      run_done = (rw (run_read.0) refl, run_read.2)
