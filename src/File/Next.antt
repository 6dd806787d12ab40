-- ===== src/File/Next.antt =====
-- `_FAT_check_position_for_next_cluster` of source/fatfile.c.
use libfat.Base.{ℕ, Bool, true, false, ◌||◌, not, Option, some, ltb, ◌==◌, if◌then◌else◌}
use libfat.Store.{SectorStore}
use libfat.Partition.State.{Partition, Volume}
use libfat.Fat.Entry.{cluster_eof, cluster_free, is_valid_cluster, next_cluster}
use libfat.Fat.Chain.{◌>>=◌, link_free_cluster}
use libfat.File.State.{FilePosition, Errno, einval, enospc}

module _ (store : SectorStore) (p : Partition) where
  -- What the check leaves: its result, *flagNoError, the position, the volume and r->_errno.
  pub record Checked : Type 0 where
    pub returned : Bool
    pub no_error : Bool
    pub position : FilePosition
    pub volume : Volume store
    pub errno : Errno

  -- On to cluster `next`, where it is one.
  unfoldable pub advance : Errno → FilePosition → ℕ × Volume store → Checked
  advance errno q (next, v) =
      if is_valid_cluster p next
      then record {
        returned = true;
        no_error = true;
        position = record q { cluster = next; sector = 0 };
        volume = v;
        errno = errno;
      }
      else record { returned = false; no_error = false; position = q; volume = v; errno = enospc }

  -- The next cluster, or a new one where the chain ends.
  unfoldable pub next_or_new : Volume store → ℕ → Option (ℕ × Volume store)
  next_or_new v cluster =
      let (next, st) = next_cluster store p v.cache cluster in
      let v' = record v { cache = st } in
      if next == cluster_eof || next == cluster_free
      then link_free_cluster store p v' cluster
      else some (next, v')

  -- `no_error` is *flagNoError, true where the pointer is NULL.
  unfoldable pub check_position_for_next_cluster :
      Volume store → Errno → FilePosition → ℕ → Bool → Option Checked
  unfolding advance next_or_new
  check_position_for_next_cluster v errno q remain no_error =
      let same : Bool → Bool → Errno → Option Checked = λ r f e.
        some (record { returned = r; no_error = f; position = q; volume = v; errno = e }) in
      if remain == 0
      then same true no_error errno
      else if not no_error
      then same false false errno
      else if ltb p.sectors_per_cluster q.sector
      then same false false einval
      else if q.sector == p.sectors_per_cluster
      then (next_or_new v q.cluster >>= λ r. some (advance errno q r))
      else same true true errno
