-- ===== src/File/Write/Overwrite.antt =====
-- `_FAT_write_r` over bytes that a file has already, and reading them back.
use libfat.Base.{
  ℕ, ◌+◌, ◌-◌, ◌*◌, ◌^◌, ◌≤◌, ◌<◌, ◌≡◌, ◌≢◌, true, false, ◌||◌, not, Buffer, some, arith, u32, ltb,
  ◌==◌, if◌then◌else◌, ap, refl, ◌∙◌, sym,
}
use libfat.Cache.Invariant.{Sectors}
use libfat.Store.{SectorStore, IsStore}
use libfat.Partition.State.{Partition, Volume}
use libfat.Fat.Entry.{cluster_free}
use libfat.Fat.Table.{table}
use libfat.File.State.{FileStruct, Errno, file_max_size}
use libfat.File.Content.{IsData, IsClusters, IsAt}
use libfat.File.Write.Stages.{Writing, write_stages}
use libfat.File.Write.{
  WriteCall, write_length, start_chain, end_write, write_from, write_started, write_r,
}
use libfat.File.Write.Kept.{IsPut}
use libfat.File.Write.Whole.{Done, write_stages-Done}
use libfat.File.Read.{Call, read_r}
use libfat.File.Seek.{pos, seek_set, seek_r, new_position}
use libfat.File.Seek.ThenRead.{read_r-seek_r}
use libfat.File.Layout.{table-same}

module _ (store : SectorStore) (size : ℕ) (p : Partition)
    (laws : IsStore store size p.bytes_per_sector) (d : IsData p size) (base : Sectors) (cl : ℕ → ℕ)
    (m : ℕ) (clusters : IsClusters p (table base p) cl m) (buffer : Buffer)
    (bytes : (k : ℕ) → buffer k < 256) where
  open p use {bytes_per_sector, sectors_per_cluster, bytes_per_cluster}

  -- What a write of `len` bytes returns, over bytes of the file.
  pub record IsWritten (errno : Errno) (file : FileStruct) (len : ℕ) (c : WriteCall store p buffer)
      : Type 0 where
    pub returned : c.returned ≡ some len
    pub after : Sectors
    pub holds : laws.Holds c.volume.cache after
    pub put :
        IsPut store size p laws d base cl m clusters file.current_position len buffer bytes errno
          len after
    pub position : IsAt p cl m c.file.rw_position (file.current_position + len)
    pub rest : c.file ≡ record file {
      modified = true;
      rw_position = c.file.rw_position;
      current_position = file.current_position + len;
    }
    pub kept_errno : c.errno ≡ errno

  write_started_lem :
      (v : Volume store) (errno : Errno) (file : FileStruct) (len : ℕ) (x : Writing store p)
      → file.append ≡ false
      → ltb file.filesize file.current_position ≡ false
      → ltb file.filesize (u32 (len + file.current_position)) ≡ false
      → write_stages store p buffer false (record {
        volume = v;
        ptr = 0;
        remain = len;
        position = file.rw_position;
        no_error = true;
        errno = errno;
      })
        ≡ some x
      → write_started store p buffer v errno file len ≡ some (end_write store p buffer file len x)
  unfolding write_started write_from
  write_started_lem v errno file len x a t t' e = rw (a, t, t', e) refl

  start_chain_lem :
      (v : Volume store) (file : FileStruct)
      → (file.start_cluster == cluster_free) ≡ false
      → start_chain store p buffer v file ≡ some (true, file, v)
  unfolding start_chain
  start_chain_lem v file t = rw t refl

  write_r_lem :
      (v : Volume store) (errno : Errno) (file : FileStruct) (len : ℕ)
      (c : WriteCall store p buffer)
      → (not file.in_use || not file.write) ≡ false
      → (len == 0) ≡ false
      → (file.start_cluster == cluster_free) ≡ false
      → write_length store p buffer file len ≡ len
      → write_started store p buffer v errno file len ≡ some c
      → write_r store p buffer v errno file len ≡ some c
  unfolding write_r
  write_r_lem v errno file len c t t' t'' l e = rw (l, t, t', start_chain_lem v file t'', e) refl

  end_write_lem :
      (file : FileStruct) (len : ℕ) (x : Writing store p)
      → file.append ≡ false
      → file.current_position + len ≤ file.filesize
      → file.filesize < 2 ^ 32
      → x.remain ≡ 0
      → end_write store p buffer file len x ≡ record {
        returned = some len;
        file = record file {
          modified = true;
          rw_position = x.position;
          current_position = file.current_position + len;
        };
        volume = x.volume;
        errno = x.errno;
      }
  unfolding end_write
  end_write_lem file len x a fits below z =
      let all : len - x.remain ≡ len = omega (arith, z) in
      let u : u32 (file.current_position + len) ≡ file.current_position + len = omega arith in
      let t : ltb file.filesize (file.current_position + len) ≡ false = ground arith in
      rw (a, all, u, t) refl

  end_write-IsWritten :
      (errno : Errno) (file : FileStruct) (len : ℕ) (x : Writing store p)
      (bound : file.current_position + len ≤ m * bytes_per_cluster)
      (small : len + bytes_per_cluster < 2 ^ 32)
      → file.append ≡ false
      → file.current_position + len ≤ file.filesize
      → file.filesize < 2 ^ 32
      → Done store size p laws d base cl m clusters buffer bytes file.current_position len errno
          bound small x
      → IsWritten errno file len (end_write store p buffer file len x)
  end_write-IsWritten errno file len x bound small a fits below w =
      rw (end_write_lem file len x a fits below w.none_left) (record {
        returned = refl;
        after = w.after;
        holds = w.holds;
        put = w.put;
        position = w.at;
        rest = refl;
        kept_errno = w.kept_errno;
      })

  -- On a medium without faults and a file whose chain is whole and has room for its size, where the
  -- file is open for writing, not for appending, its position stands for the current offset, and the
  -- length and a cluster each add up with the size to less than 2 ^ 32: a write of bytes that the file
  -- has already ends and returns its length; the file then has the bytes of the buffer there, its
  -- other bytes and all sectors before the data area are as before, the position stands for the
  -- offset behind the bytes, the file is marked as modified and otherwise as before, and errno is
  -- kept.
  pub write_r-IsWritten :
      (v : Volume store) (errno : Errno) (file : FileStruct) (len : ℕ)
      → laws.Holds v.cache base
      → 0 < len
      → file.in_use ≡ true
      → file.write ≡ true
      → file.append ≡ false
      → file.start_cluster ≢ cluster_free
      → file.current_position + len ≤ file.filesize
      → file.filesize ≤ m * bytes_per_cluster
      → len + file.filesize < 2 ^ 32
      → file.filesize + bytes_per_cluster < 2 ^ 32
      → IsAt p cl m file.rw_position file.current_position
      → (c : WriteCall store p buffer) × (write_r store p buffer v errno file len ≡ some c)
        × IsWritten errno file len c
  write_r-IsWritten v errno file len h nonempty used writes plain started fits whole no_wrap small
        at =
      let cur = file.current_position in
      let bound : cur + len ≤ m * bytes_per_cluster = omega arith in
      let small' : len + bytes_per_cluster < 2 ^ 32 = omega arith in
      let none_yet : cur + 0 ≡ cur = omega arith in
      let x : Writing store p = record {
        volume = v;
        ptr = 0;
        remain = len;
        position = file.rw_position;
        no_error = true;
        errno = errno;
      } in
      let (y, e, w) =
        write_stages-Done store size p laws d base cl m clusters buffer bytes cur len errno bound
          small' x
          (record {
            after = base;
            holds = h;
            put = record {
              written = λ k hk. absurd (omega arith);
              kept = λ q hq out. refl;
              below = λ t o ht. refl;
            };
            fine = refl;
            kept_errno = refl;
            sum = omega arith;
            at = rw none_yet at;
          })
          nonempty in
      let t : (not file.in_use || not file.write) ≡ false = ground (arith, used, writes) in
      let t' : (len == 0) ≡ false = ground arith in
      let t'' : (file.start_cluster == cluster_free) ≡ false = ground (arith, started) in
      let b : ltb file.filesize cur ≡ false = ground arith in
      let u : u32 (len + file.filesize) ≡ len + file.filesize = omega arith in
      let l : write_length store p buffer file len ≡ len =
        let c : (ltb file_max_size (len + file.filesize) || ltb (len + file.filesize) file.filesize)
            ≡ false =
          ground arith in
        rw (u, c) refl in
      let g : ltb file.filesize (u32 (len + cur)) ≡ false = ground arith in
      let started' = write_started_lem v errno file len y plain b g e in
      (
        end_write store p buffer file len y,
        write_r_lem v errno file len (end_write store p buffer file len y) t t' t'' l started',
        end_write-IsWritten errno file len y bound small' plain fits (omega arith) w,
      )

  -- The links are in the table, which a write does not change.
  kept-IsClusters :
      (after : Sectors)
      → ((t o : ℕ) → t < p.data_start → after t o ≡ base t o)
      → IsClusters p (table after p) cl m
  kept-IsClusters after below =
      let same : (i : ℕ) → i < m → table after p (cl i) ≡ table base p (cl i) =
        λ i h. table-same p size base after (cl i) d ((clusters.valid i h).1) below in
      record {
        valid = clusters.valid;
        linked = λ i h. same i (omega arith) ∙ clusters.linked i h;
        ends = λ i h. same i (omega arith) ∙ clusters.ends i h;
      }

  -- On a medium without faults and a file whose chain is whole and has room for its size, open for
  -- reading and writing, not for appending, with its position at the current offset, and where the
  -- length and a cluster each add up with the size to less than 2 ^ 32: a write over bytes that the
  -- file has, a seek back to where it began and a read of as many bytes all end, and the read returns
  -- the bytes that were written.
  pub read_r-write_r :
      (v : Volume store) (errno : Errno) (file : FileStruct) (len : ℕ) (buffer' : Buffer)
      → laws.Holds v.cache base
      → 0 < len
      → file.in_use ≡ true
      → file.write ≡ true
      → file.read ≡ true
      → file.append ≡ false
      → cl 0 ≡ file.start_cluster
      → file.start_cluster ≢ cluster_free
      → file.current_position + len ≤ file.filesize
      → file.filesize ≤ m * bytes_per_cluster
      → len + file.filesize < 2 ^ 32
      → file.filesize + bytes_per_cluster < 2 ^ 32
      → IsAt p cl m file.rw_position file.current_position
      → (w : WriteCall store p buffer) × (write_r store p buffer v errno file len ≡ some w)
        × (let s =
              seek_r store p w.volume.cache w.errno w.file (pos file.current_position) seek_set in
            (c : Call store p) × (read_r store p s.cache s.errno s.file buffer' len ≡ some c)
            × (c.returned ≡ some len)
            × ((k : ℕ) → k < len → c.buffer k ≡ buffer k))
  unfolding new_position
  read_r-write_r v errno file len buffer' h nonempty used writes reads plain first started fits
        whole no_wrap small at =
      let cur = file.current_position in
      let (w, e, i) =
        write_r-IsWritten v errno file len h nonempty used writes plain started fits whole no_wrap
          small at in
      let size_ : w.file.filesize ≡ file.filesize = ap (λ (f : FileStruct). f.filesize) i.rest in
      let start' : w.file.start_cluster ≡ file.start_cluster =
        ap (λ (f : FileStruct). f.start_cluster) i.rest in
      let now : w.file.current_position ≡ cur + len =
        ap (λ (f : FileStruct). f.current_position) i.rest in
      let (c, e', count, read, _) =
        read_r-seek_r store size p laws d i.after cl m (kept-IsClusters i.after i.put.below)
          w.volume.cache w.errno w.file (pos cur) seek_set cur buffer' len i.holds
          (omega (arith, at.inside)) (ap (λ (f : FileStruct). f.in_use) i.rest ∙ used)
          (ap (λ (f : FileStruct). f.read) i.rest ∙ reads) (first ∙ sym start') (rw start' started)
          refl (omega (arith, size_, fits)) (omega (arith, size_)) (omega (arith, size_))
          (λ le. absurd (omega (arith, now, le))) nonempty (omega arith) in
      let all : ltb w.file.filesize (len + cur) ≡ false = ground (arith, size_, fits) in
      let n : (if ltb w.file.filesize (len + cur) then w.file.filesize - cur else len) ≡ len =
        rw all refl in
      (w, e, (c, e', count ∙ ap some n, λ k hk. read k (rw n hk) ∙ i.put.written k hk))
