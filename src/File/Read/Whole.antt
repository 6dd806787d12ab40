-- ===== src/File/Read/Whole.antt =====
-- `_FAT_read_r` as a whole, on a file whose chain is whole and covers its size.
use libfat.Base.{
  ℕ, ◌+◌, ◌-◌, ◌*◌, ◌/◌, ◌^◌, ◌≤◌, ◌<◌, ◌≡◌, ◌≢◌, ◌⊎◌, inl, inr, true, false, ◌||◌, not, Buffer,
  some, arith, u32, leb, ltb, ◌==◌, if◌then◌else◌, ap, refl, ◌∙◌, sym,
}
use native.Mathlib.Decide.{ℕ_discrete}
use libfat.Cache.Invariant.{Sectors}
use libfat.Cache.Sector.Update.{row_after}
use libfat.Store.{SectorStore, IsStore}
use libfat.Partition.State.{Partition}
use libfat.Fat.Entry.{cluster_free, cluster_to_sector}
use libfat.Fat.Entry.Places.{mod_bounds, div_lt}
use libfat.Fat.Table.{table}
use libfat.File.State.{FileStruct, Errno, eoverflow, readable}
use libfat.File.Content.{IsData, IsClusters, IsAt, content, some_bytes}
use libfat.File.Read.{
  Reading, read_to_sector, read_to_cluster, read_next_cluster, read_last_sectors, read_last_bytes,
  read_stages, Call, end_read, read_r,
}
use libfat.File.Read.Copied.{Got, part_copied}
use libfat.File.Read.Stages.{read_rest_none, sectors-Got, read_to_sector-Got, read_to_cluster-Got}
use libfat.File.Read.Clusters.{read_next_cluster-Got}
use libfat.File.Read.Chunks.{Ready, read_clusters-Got}

module _ (store : SectorStore) (size : ℕ) (p : Partition)
    (laws : IsStore store size p.bytes_per_sector) (d : IsData p size) (sectors : Sectors)
    (cl : ℕ → ℕ) (m : ℕ) (clusters : IsClusters p (table sectors p) cl m) where
  open p use {bytes_per_sector, sectors_per_cluster, bytes_per_cluster}

  module _ (start len : ℕ) (errno : Errno) (bound : start + len ≤ m * bytes_per_cluster)
      (small : len + bytes_per_cluster < 2 ^ 32) where
    abbrev Here : Reading store p → Type 0
    Here x = Got store size p laws d sectors cl m clusters start len errno x

    abbrev IsReady : Reading store p → Type 0
    IsReady x = Ready store size p laws d sectors cl m clusters start len errno bound small x

    ready_many :
        (x : Reading store p)
        → IsReady x
        → bytes_per_sector ≤ x.remain
        → (x.position.byte ≡ 0) × (x.position.sector ≡ 0)
    ready_many x (inl z) many = absurd (omega (arith, d.fat.some_bytes))
    ready_many x (inr (b, inl s)) many = (b, s)
    ready_many x (inr (b, inr (inside, few))) many = absurd (omega arith)

    ready_few :
        (x : Reading store p)
        → IsReady x
        → x.remain < bytes_per_sector
        → (x.remain ≡ 0)
          ⊎ ((x.position.byte ≡ 0)
              × (x.position.sector < sectors_per_cluster)
              × (x.remain < bytes_per_sector))
    ready_few x (inl z) few = inl z
    ready_few x (inr (b, inl s)) few = inr (b, omega (arith, d.some_sectors), few)
    ready_few x (inr (b, inr (inside, _))) few = inr (b, inside, few)

    read_last_sectors-Got :
        (x : Reading store p)
        → Here x
        → IsReady x
        → x.remain < bytes_per_cluster
        → let y = read_last_sectors store p x in
          Here y
          × ((y.remain ≡ 0)
              ⊎ ((y.position.byte ≡ 0)
                  × (y.position.sector < sectors_per_cluster)
                  × (y.remain < bytes_per_sector)))
    unfolding read_last_sectors
    read_last_sectors-Got x g ready few =
        let n = x.remain / bytes_per_sector in
        let (e, lt) = mod_bounds x.remain bytes_per_sector (some_bytes p size d) in
        elim (ℕ_discrete n 0) [
          | yes z ↦
              let below : x.remain < bytes_per_sector =
                omega (arith, e, lt, ap (λ (t : ℕ). t * bytes_per_sector) z) in
              rw
                (read_rest_none store size p laws d sectors cl m clusters start len errno x
                  (cluster_to_sector p x.position.cluster) n z)
                (g, ready_few x ready below)
          | no ne ↦
              let many = row_after bytes_per_sector 0 n (omega arith) in
              let (b, s) = ready_many x ready (omega (arith, e, many)) in
              let sector : cluster_to_sector p x.position.cluster
                  ≡ cluster_to_sector p (cl g.at.index) + x.position.sector =
                ap (cluster_to_sector p) g.at.cluster ∙ omega (arith, s) in
              let room : n < sectors_per_cluster =
                div_lt x.remain bytes_per_sector sectors_per_cluster (some_bytes p size d)
                  (omega (arith, few, d.cluster_size)) in
              let (h, byte, sector', left) =
                sectors-Got store size p laws d sectors cl m clusters start len errno x n g
                  (omega arith) b (omega (arith, e)) (omega (arith, room, s)) in
              rw sector (h, inr (byte, omega (arith, sector', s, room), omega (arith, left, e, lt)))
        ]

    -- Nothing is left: the buffer has all `len` bytes.
    pub record Done (x : Reading store p) : Type 0 where
      pub holds : laws.Holds x.cache sectors
      pub kept_errno : x.errno ≡ errno
      pub none_left : x.remain ≡ 0
      pub at : IsAt p cl m x.position (start + len)
      pub copied : (k : ℕ) → k < len → x.buffer k ≡ content sectors p cl (start + k)

    Got-Done : (x : Reading store p) → Here x → x.remain ≡ 0 → Done x
    Got-Done x g z =
        let all : x.ptr ≡ len = omega (arith, g.sum) in
        record {
          holds = g.holds;
          kept_errno = g.kept_errno;
          none_left = z;
          at = rw (sym all) g.at;
          copied = λ k h. g.copied k (omega arith);
        }

    read_last_bytes-Done :
        (x : Reading store p)
        → Here x
        → (x.remain ≡ 0)
          ⊎ ((x.position.byte ≡ 0)
              × (x.position.sector < sectors_per_cluster)
              × (x.remain < bytes_per_sector))
        → Done (read_last_bytes store p x)
    unfolding read_last_bytes
    read_last_bytes-Done x g (inl z) =
        let t : ltb 0 x.remain ≡ false = ground arith in rw t (Got-Done x g z)
    read_last_bytes-Done x g (inr (b, inside, few)) = elim (ℕ_discrete x.remain 0) [
      | yes z ↦ let t : ltb 0 x.remain ≡ false = ground arith in rw t (Got-Done x g z)
      | no ne ↦
          let t : ltb 0 x.remain ≡ true = ground arith in
          let (h, copied) =
            part_copied store size p laws d sectors cl m clusters start len errno x g inside 0
              x.remain b (omega arith) in
          rw (t, g.fine)
            (record {
              holds = h;
              kept_errno = g.kept_errno;
              none_left = refl;
              at = record {
                index = g.at.index;
                inside = g.at.inside;
                cluster = g.at.cluster;
                offset = omega (arith, g.at.offset, g.sum, b);
                byte = omega (arith, b);
                sector = inl inside;
              };
              copied = λ k hk. copied k (omega (arith, g.sum));
            })
    ]

    read_stages-Done :
        (x : Reading store p)
        → Here x
        → (x.position.sector < sectors_per_cluster) ⊎ (bytes_per_sector ≤ x.remain)
        → (y : Reading store p) × (read_stages store p x ≡ some y) × Done y
    unfolding read_stages
    read_stages-Done x g room =
        let (g1, aligned) =
          read_to_sector-Got store size p laws d sectors cl m clusters start len errno x g room in
        let x1 = read_to_sector store p x in
        let (g2, left) =
          read_to_cluster-Got store size p laws d sectors cl m clusters start len errno x1 g1
            aligned in
        let x2 = read_to_cluster store p x1 in
        let (g3, same, ready) =
          read_next_cluster-Got store size p laws d sectors cl m clusters start len errno bound x2
            g2 left in
        let x3 = read_next_cluster store p x2 in
        let (y, e, g4, ready', few) =
          read_clusters-Got store size p laws d sectors cl m clusters start len errno bound small
            (x3.remain + 1) x3 g3 ready (omega arith) in
        let (g5, left') = read_last_sectors-Got y g4 ready' few in
        rw e (
          read_last_bytes store p (read_last_sectors store p y),
          refl,
          read_last_bytes-Done (read_last_sectors store p y) g5 left',
        )

  -- What `_FAT_read_r` returns: bytes of the file, with the position moved over them.
  pub record IsRead (errno : Errno) (file : FileStruct) (len : ℕ) (c : Call store p) : Type 0 where
    pub returned : c.returned ≡ some (readable file len)
    pub bytes :
        (k : ℕ)
        → k < readable file len
        → c.buffer k ≡ content sectors p cl (file.current_position + k)
    pub position : IsAt p cl m c.file.rw_position (file.current_position + readable file len)
    pub rest : c.file ≡ record file {
      rw_position = c.file.rw_position;
      current_position = file.current_position + readable file len;
    }
    pub overflow :
        c.errno ≡ (if ltb file.filesize (len + file.current_position) then eoverflow else errno)
    pub holds : laws.Holds c.cache sectors

  -- On a medium without faults and a file whose chain is whole and has room for its size, where the
  -- read position stands for the current offset: a read ends, it returns the bytes of the file up to
  -- the length or the end of the file, whichever comes first, the read position then stands for the
  -- offset behind them, nothing else of the file changes, and errno is set where the end of the file cut the
  -- read short. The position is not behind the last
  -- sector of a cluster, or a sector or more is read.
  pub read_r-IsRead :
      (st : store.State) (errno : Errno) (file : FileStruct) (buffer : Buffer) (len : ℕ)
      → laws.Holds st sectors
      → 0 < len
      → len + file.current_position < 2 ^ 32
      → file.filesize + bytes_per_cluster < 2 ^ 32
      → file.in_use ≡ true
      → file.read ≡ true
      → file.start_cluster ≢ cluster_free
      → file.current_position < file.filesize
      → file.filesize ≤ m * bytes_per_cluster
      → IsAt p cl m file.rw_position file.current_position
      → (file.rw_position.sector < sectors_per_cluster) ⊎ (bytes_per_sector ≤ readable file len)
      → (c : Call store p) × (read_r store p st errno file buffer len ≡ some c)
        × IsRead errno file len c
  unfolding read_r end_read
  read_r-IsRead st errno file buffer len h pos wrap small used readable_ started before whole at
        room =
      let n = readable file len in
      let past = ltb file.filesize (len + file.current_position) in
      let e = if past then eoverflow else errno in
      let x : Reading store p = record {
        cache = st;
        buffer = buffer;
        ptr = 0;
        remain = n;
        position = file.rw_position;
        no_error = true;
        errno = e;
      } in
      let fits : file.current_position + n ≤ file.filesize = ground arith in
      let u : u32 (len + file.current_position) ≡ len + file.current_position = omega arith in
      let t : (len == 0) ≡ false = ground arith in
      let t' : (not file.in_use || not file.read) ≡ false = ground (arith, used, readable_) in
      let t'' : (leb file.filesize file.current_position || file.start_cluster == cluster_free)
          ≡ false =
        ground (arith, started) in
      let zero_done : file.current_position + 0 ≡ file.current_position = omega arith in
      let (y, e', done) =
        read_stages-Done file.current_position n e (omega (arith, fits, whole))
          (omega (arith, fits, small)) x
          (record {
            holds = h;
            fine = refl;
            kept_errno = refl;
            sum = omega arith;
            at = rw zero_done at;
            copied = λ k hk. absurd (omega arith);
          })
          room in
      let all : n - y.remain ≡ n = omega (arith, done.none_left) in
      let v : u32 (file.current_position + n) ≡ file.current_position + n =
        omega (arith, fits, small) in
      rw (t, t', t'', u, e')
        (
          end_read store p file n y,
          refl,
          record {
            returned = ap some all;
            bytes = done.copied;
            position = done.at;
            rest = rw (all, v) refl;
            overflow = done.kept_errno;
            holds = done.holds;
          },
        )
