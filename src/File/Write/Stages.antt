-- ===== src/File/Write/Stages.antt =====
-- The stages of `_FAT_write_r` of source/fatfile.c, in order. `none` is a loop that has not ended when
-- its fuel is used up. The variant with LIMIT_SECTORS is not the one here.
use libfat.Base.{
  ℕ, zero, suc, ◌+◌, ◌-◌, ◌*◌, ◌/◌, Bool, false, ◌&&◌, not, Option, none, some, u32, leb, ltb, ◌==◌,
  if◌then◌else◌, Buffer,
}
use libfat.Store.{SectorStore}
use libfat.Partition.State.{Partition, Volume}
use libfat.Fat.Entry.{cluster_to_sector, is_valid_cluster}
use libfat.Fat.Chain.{◌>>=◌}
use libfat.File.State.{
  FilePosition, Errno, eio, position_sector, after_bytes, to_sector_end, to_cluster_end, at_ptr,
}
use libfat.File.Next.{Checked, check_position_for_next_cluster}

module _ (store : SectorStore) (p : Partition) where
  -- The local variables of `_FAT_write_r`, with the volume and r->_errno; `ptr` is an offset in the
  -- caller's buffer.
  pub record Writing : Type 0 where
    pub volume : Volume store
    pub ptr : ℕ
    pub remain : ℕ
    pub position : FilePosition
    pub no_error : Bool
    pub errno : Errno

  -- _FAT_check_position_for_next_cluster (r, &position, partition, remain, &flagNoError)
  unfoldable pub write_check : Writing → Option Writing
  unfolding check_position_for_next_cluster
  write_check x =
      check_position_for_next_cluster store p x.volume x.errno x.position x.remain x.no_error
      >>= λ c. some (record x {
        volume = c.volume;
        position = c.position;
        no_error = c.no_error;
        errno = c.errno;
      })

  module _ (buffer : Buffer) where
    -- Align to sector.
    unfoldable pub write_to_sector : Writing → Writing
    write_to_sector x =
        let n = to_sector_end p x.position x.remain in
        let r =
          store.write_partial_sector x.volume.cache (at_ptr buffer x.ptr)
            (position_sector p x.position) x.position.byte n in
        if ltb n p.bytes_per_sector && x.no_error
        then record x {
          volume = record (x.volume) { cache = r.state };
          ptr = x.ptr + n;
          remain = x.remain - n;
          position = after_bytes p x.position n;
        }
        else x

    -- `n` whole sectors from `sector` on.
    unfoldable pub write_whole : Writing → ℕ → ℕ → Writing
    write_whole x sector n =
        let r = store.write_sectors x.volume.cache sector n (at_ptr buffer x.ptr) in
        let x' : Writing = record x { volume = record (x.volume) { cache = r.state } } in
        if r.ok
        then record x' {
          ptr = x.ptr + n * p.bytes_per_sector;
          remain = x.remain - n * p.bytes_per_sector;
        }
        else record x' { no_error = false; errno = eio }

    -- ... and position.sector moves on where it succeeded.
    abbrev pub write_rest : Writing → ℕ → ℕ → Writing
    write_rest x sector n =
        let x' = write_whole x sector n in
        let moved = record x.position { sector = u32 (x.position.sector + n) } in
        if not x.no_error then x else if x'.no_error then record x' { position = moved } else x'

    -- Align to cluster.
    unfoldable pub write_to_cluster : Writing → Writing
    unfolding write_whole
    write_to_cluster x =
        let n = to_cluster_end p x.position x.remain in
        if ltb 0 n && ltb n p.sectors_per_cluster
        then write_rest x (position_sector p x.position) n
        else x

    -- Consecutive clusters: what the grouping loop keeps.
    pub record Group : Type 0 where
      pub writing : Writing
      pub next_position : FilePosition
      pub chunk_end : ℕ
      pub next_chunk_start : ℕ
      pub chunk_size : ℕ

    -- What a round does after the check.
    unfoldable pub group_checked : Group → Checked store p → Group
    group_checked g c = record g {
      writing = record (g.writing) { volume = c.volume; no_error = c.no_error; errno = c.errno };
      next_position = c.position;
      next_chunk_start = if c.no_error then c.position.cluster else g.next_chunk_start;
    }

    unfoldable pub group_clusters : ℕ → Group → Option Group
    unfolding check_position_for_next_cluster group_checked
    group_clusters zero g =
        if g.writing.no_error && ltb (u32 (g.chunk_size + p.bytes_per_cluster)) g.writing.remain
        then none
        else some g
    group_clusters (suc fuel) g =
        let next =
          check_position_for_next_cluster store p g.writing.volume g.writing.errno
            (record (g.next_position) { sector = p.sectors_per_cluster })
            (g.writing.remain - g.chunk_size) g.writing.no_error
          >>= λ c.
              let g' = group_checked g c in
              let start = g'.next_chunk_start in
              let rest = group_clusters fuel (record g' {
                chunk_end = start;
                chunk_size = g.chunk_size + p.bytes_per_cluster;
              }) in
              if c.no_error && start == u32 (g.chunk_end + 1) then rest else some g' in
        if g.writing.no_error && ltb (u32 (g.chunk_size + p.bytes_per_cluster)) g.writing.remain
        then next
        else some g

    -- The group is written, and the position is behind it.
    unfoldable pub write_group : Group → Writing
    write_group g =
        let x = g.writing in
        let first = cluster_to_sector p x.position.cluster in
        let n = g.chunk_size / p.bytes_per_sector in
        let r = store.write_sectors x.volume.cache first n (at_ptr buffer x.ptr) in
        let x' : Writing = record x { volume = record (x.volume) { cache = r.state } } in
        let own =
          not (g.chunk_end == g.next_chunk_start) && is_valid_cluster p g.next_chunk_start in
        if r.ok
        then record x' {
          ptr = x.ptr + g.chunk_size;
          remain = x.remain - g.chunk_size;
          position =
              if own
              then record x.position { cluster = g.next_chunk_start; sector = 0 }
              else record x.position { cluster = g.chunk_end; sector = p.sectors_per_cluster };
        }
        else record x' { no_error = false; errno = eio }

    -- Write whole clusters.
    unfoldable pub write_clusters : ℕ → Writing → Option Writing
    unfolding write_check group_clusters write_group
    write_clusters zero x = if leb p.bytes_per_cluster x.remain && x.no_error then none else some x
    write_clusters (suc fuel) x =
        let next = write_check x >>= λ y.
        let g : Group = record {
          writing = y;
          next_position = y.position;
          chunk_end = y.position.cluster;
          next_chunk_start = y.position.cluster;
          chunk_size = p.bytes_per_cluster;
        } in
        let rest = group_clusters (suc fuel) g >>= λ h. write_clusters fuel (write_group h) in
        if y.no_error then rest else some y in
        if leb p.bytes_per_cluster x.remain && x.no_error then next else some x

    -- Write remaining sectors.
    unfoldable pub write_last_sectors : Writing → Writing
    unfolding write_whole
    write_last_sectors x =
        let n = x.remain / p.bytes_per_sector in
        if ltb 0 n then write_rest x (cluster_to_sector p x.position.cluster) n else x

    -- Last remaining sector.
    unfoldable pub write_last_bytes : Bool → Writing → Writing
    write_last_bytes appending x =
        let sector = position_sector p x.position in
        let st = x.volume.cache in
        let from = at_ptr buffer x.ptr in
        let st' =
          if appending
          then (store.erase_write_partial_sector st from sector 0 x.remain).state
          else (store.write_partial_sector st from sector 0 x.remain).state in
        if ltb 0 x.remain && x.no_error
        then record x {
          volume = record (x.volume) { cache = st' };
          position = record x.position { byte = x.position.byte + x.remain };
          remain = 0;
        }
        else x

    -- From "Move onto next cluster if needed" to the end of the last sector.
    unfoldable pub write_stages : Bool → Writing → Option Writing
    unfolding write_check write_to_sector write_to_cluster write_clusters write_last_sectors
        write_last_bytes
    write_stages appending x =
        write_check x
        >>= (λ y. write_clusters (y.remain + 1) (write_to_cluster (write_to_sector y)))
        >>= write_check
        >>= (λ y. some (write_last_bytes appending (write_last_sectors y)))
