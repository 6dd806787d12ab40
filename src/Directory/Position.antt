-- ===== src/Directory/Position.antt =====
-- `_FAT_directory_incrementDirEntryPosition` of source/directory.c.
use libfat.Base.{
  ℕ, ◌+◌, ◌*◌, ◌/◌, Bool, true, false, Option, some, not, ◌&&◌, u32, sub32, ◌==◌, if◌then◌else◌,
}
use libfat.Store.{SectorStore}
use libfat.Partition.State.{Partition, Volume}
use libfat.Fat.Entry.{next_cluster, cluster_eof, is_valid_cluster, cluster_to_sector}
use libfat.Fat.Chain.{◌>>=◌, link_free_cluster_cleared}
use libfat.Directory.Entry.{DirEntryPosition, dir_entry_data_size, fat16_root_dir_cluster}

module _ (store : SectorStore) (p : Partition) where
  -- What a step returns: its flag, the position and the volume.
  pub record Step : Type 0 where
    pub ok : Bool
    pub position : DirEntryPosition
    pub volume : Volume store

  -- The move to the next cluster of the directory.
  unfoldable pub next_dir_cluster : Volume store → DirEntryPosition → Bool → Option Step
  next_dir_cluster v at extend_directory =
      let (next, st) = next_cluster store p v.cache at.cluster in
      let v' = record v { cache = st } in
      if next == cluster_eof
      then (if extend_directory
          then (link_free_cluster_cleared store p v' at.cluster >>= λ r. some (
              if is_valid_cluster p r.0
              then record {
                ok = true;
                position = record { cluster = r.0; sector = 0; offset = 0 };
                volume = r.1;
              }
              else record { ok = false; position = at; volume = r.1 }))
          else some (record { ok = false; position = at; volume = v' }))
      else some (record {
        ok = true;
        position = record { cluster = next; sector = 0; offset = 0 };
        volume = v';
      })

  unfoldable pub increment_dir_entry_position : Volume store → DirEntryPosition → Bool → Option Step
  unfolding next_dir_cluster
  increment_dir_entry_position v at extend_directory =
      let offset = u32 (at.offset + 1) in
      let sector = u32 (at.sector + 1) in
      if not (offset == p.bytes_per_sector / dir_entry_data_size)
      then some (record { ok = true; position = record at { offset = offset }; volume = v })
      else if sector == p.sectors_per_cluster && not (at.cluster == fat16_root_dir_cluster)
      then next_dir_cluster v at extend_directory
      else if at.cluster == fat16_root_dir_cluster && sector == sub32 p.data_start p.root_dir_start
      then some (record { ok = false; position = at; volume = v })
      else some (record {
        ok = true;
        position = record { cluster = at.cluster; sector = sector; offset = 0 };
        volume = v;
      })

-- Where the bytes of an entry stand.
abbrev pub entry_sector : Partition → DirEntryPosition → ℕ
entry_sector p at = u32 (cluster_to_sector p at.cluster + at.sector)

abbrev pub entry_offset : DirEntryPosition → ℕ
entry_offset at = u32 (at.offset * dir_entry_data_size)
