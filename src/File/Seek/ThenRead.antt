-- ===== src/File/Seek/ThenRead.antt =====
-- `_FAT_seek_r` followed by `_FAT_read_r`.
use libfat.Base.{
  ℕ, ◌+◌, ◌-◌, ◌*◌, ◌^◌, ◌≤◌, ◌<◌, ◌≡◌, ◌≢◌, inl, true, some, arith, ltb, if◌then◌else◌, ap, ◌∙◌,
  sym, Buffer,
}
use libfat.Cache.Invariant.{Sectors}
use libfat.Store.{SectorStore, IsStore}
use libfat.Partition.State.{Partition}
use libfat.Fat.Entry.{cluster_free}
use libfat.Fat.Table.{table}
use libfat.File.State.{FileStruct, Errno}
use libfat.File.Content.{IsData, IsClusters, IsAt, content}
use libfat.File.Read.{Call, read_r}
use libfat.File.Read.Whole.{IsRead, read_r-IsRead}
use libfat.File.Seek.{ℤ, pos, Whence, new_position, seek_r}
use libfat.File.Seek.Positions.{seek_r-IsSought}

module _ (store : SectorStore) (size : ℕ) (p : Partition)
    (laws : IsStore store size p.bytes_per_sector) (d : IsData p size) (sectors : Sectors)
    (cl : ℕ → ℕ) (m : ℕ) (clusters : IsClusters p (table sectors p) cl m) where
  open p use {bytes_per_sector, sectors_per_cluster, bytes_per_cluster}

  -- A read from a file at offset `n` of `filesize` bytes.
  read_at :
      (errno : Errno) (file : FileStruct) (len n filesize : ℕ) (c : Call store p)
      → IsRead store size p laws d sectors cl m clusters errno file len c
      → file.current_position ≡ n
      → file.filesize ≡ filesize
      → let count = if ltb filesize (len + n) then filesize - n else len in
        (c.returned ≡ some count)
        × ((k : ℕ) → k < count → c.buffer k ≡ content sectors p cl (n + k))
        × (c.file.current_position ≡ n + count)
  read_at errno file len n filesize c r now same =
      rw (sym now, sym same)
        (r.returned, r.bytes, ap (λ (f : FileStruct). f.current_position) r.rest)

  -- On a medium without faults and a file whose chain is whole and has room for its size, which adds
  -- up with a cluster to less than 2 ^ 32, as the length and the new offset do: after a seek to an
  -- offset before its end, a read ends and returns the bytes of the file from that offset on, up to
  -- the length or the end of the file. On a seek forward the position stood for the current offset.
  pub read_r-seek_r :
      (st : store.State) (errno : Errno) (file : FileStruct) (offset : ℤ) (whence : Whence) (n : ℕ)
      (buffer : Buffer) (len : ℕ)
      → laws.Holds st sectors
      → 0 < m
      → file.in_use ≡ true
      → file.read ≡ true
      → cl 0 ≡ file.start_cluster
      → file.start_cluster ≢ cluster_free
      → new_position file offset whence ≡ some (pos n)
      → n < file.filesize
      → file.filesize + bytes_per_cluster < 2 ^ 32
      → file.filesize ≤ m * bytes_per_cluster
      → (file.current_position ≤ n → IsAt p cl m file.rw_position file.current_position)
      → 0 < len
      → len + n < 2 ^ 32
      → let s = seek_r store p st errno file offset whence in
        let count = if ltb file.filesize (len + n) then file.filesize - n else len in
        (c : Call store p) × (read_r store p s.cache s.errno s.file buffer len ≡ some c)
        × (c.returned ≡ some count)
        × ((k : ℕ) → k < count → c.buffer k ≡ content sectors p cl (n + k))
        × (c.file.current_position ≡ n + count)
  read_r-seek_r st errno file offset whence n buffer len h some_clusters used reads first started
        new before small whole at some_bytes room =
      let s = seek_r store p st errno file offset whence in
      let t =
        seek_r-IsSought store size p laws d sectors cl m clusters st errno file offset whence n h
          some_clusters used first started new (omega arith) (omega (arith, small)) whole at in
      let now : s.file.current_position ≡ n = ap (λ (f : FileStruct). f.current_position) t.rest in
      let same : s.file.filesize ≡ file.filesize = ap (λ (f : FileStruct). f.filesize) t.rest in
      let same' : s.file.start_cluster ≡ file.start_cluster =
        ap (λ (f : FileStruct). f.start_cluster) t.rest in
      let (c, e, r) =
        read_r-IsRead store size p laws d sectors cl m clusters s.cache s.errno s.file buffer len
          t.holds some_bytes (omega (arith, now, room)) (omega (arith, same, small))
          (ap (λ (f : FileStruct). f.in_use) t.rest ∙ used)
          (ap (λ (f : FileStruct). f.read) t.rest ∙ reads) (rw same' started)
          (omega (arith, now, same, before)) (omega (arith, same, whole)) (rw now t.position)
          (inl (t.before_end (omega (arith, before, whole)))) in
      let (count, bytes, current) = read_at s.errno s.file len n file.filesize c r now same in
      (c, e, count, bytes, current)
