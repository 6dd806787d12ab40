-- ===== src/Examples/FileRuns.antt =====
-- Open files at the example volume.
use libfat.Base.{◌≤◌, ◌≢◌, ℕ, Buffer, ◌+◌, ◌<◌, ◌≡◌, true, false, inl, none, some, arith, refl}
use libfat.Base.Lists.{[], ◌∷◌}
use libfat.Fat.Entry.{cluster_free, cluster_eof, cluster_to_sector}
use libfat.Fat.Table.{IsFat, table}
use libfat.Fat.Chain.Shows.{Shows, set}
use libfat.Fat.Chain.Chains.{IsChain, freed}
use libfat.Directory.Entry.{DirEntryPosition}
use libfat.FileTime.{Tm}
use libfat.File.State.{enospc, FilePosition, FileStruct, unset, position_sector}
use libfat.File.Content.{IsData, IsClusters, IsAt, content}
use libfat.File.Read.{Call, read_r}
use libfat.File.Read.Whole.{IsRead, read_r-IsRead}
use libfat.File.Read.Border.{read_r-border}
use libfat.File.Seek.{pos, seek_set, seek_r, new_position}
use libfat.File.Seek.Positions.{IsSought, seek_r-IsSought}
use libfat.File.Seek.ThenRead.{read_r-seek_r}
use libfat.File.Truncate.{TruncateCall, ftruncate_r}
use libfat.File.Truncate.Shrunk.{chain_cluster, ftruncate_r-Shrunk}
use libfat.File.Truncate.NoRoom.{ftruncate_r-no_room}
use native.Mathlib.Decide.{ℕ_discrete}
use libfat.Partition.State.{Partition}
use libfat.File.Write.{WriteCall, write_r}
use libfat.File.Write.Overwrite.{IsWritten, write_r-IsWritten, read_r-write_r}
use libfat.File.OpenFiles.{OpenFiles, insert_open_file, remove_open_file}
use libfat.File.OpenFiles.Kept.{
  IsOpenList, insert_open_file-IsOpenList, remove_open_file-IsOpenList,
}
use libfat.File.Sync.{Clock, sync_to_disc}
use libfat.File.Sync.Synced.{Synced, dir_entry_bytes, sync_to_disc-Synced}
use libfat.File.Sync.Stat.{entry_stat-sync_to_disc}
use libfat.Directory.Stat.{entry_stat}
use libfat.Cache.Invariant.{Sectors}
use libfat.Examples.Setup.{
  disc_image, disc_image-IsByteSectors, new_cache, new_cache-Refines, new_cache-Shows, ram_store,
  ram_laws, small_volume, small_volume-IsFat, image_links, mounted, sevens,
}

pub small_volume-IsData : IsData small_volume 64
small_volume-IsData = record {
  fat = small_volume-IsFat;
  some_sectors = omega arith;
  cluster_size = refl;
  cluster_small = omega arith;
  area = omega arith;
  behind_table = omega arith;
}

abbrev two_three : ℕ → ℕ
two_three i = i + 2

two_three-IsClusters : IsClusters small_volume image_links two_three 2
unfolding table
two_three-IsClusters = record {
  valid = λ i h. (omega arith, omega arith);
  linked = λ i h. let z : i ≡ 0 = omega arith in rw z refl;
  ends = λ i h. let z : i ≡ 1 = omega arith in rw z refl;
}

abbrev at_start : FilePosition
at_start = record { cluster = 2; sector = 0; byte = 0 }

abbrev no_entry : DirEntryPosition
no_entry = record { cluster = 0; sector = 0; offset = 1 }

-- 700 bytes in two clusters.
abbrev open_file : FileStruct
open_file = record {
  filesize = 700;
  start_cluster = 2;
  current_position = 0;
  rw_position = at_start;
  append_position = at_start;
  dir_entry_start = no_entry;
  dir_entry_end = no_entry;
  read = true;
  write = true;
  append = false;
  in_use = true;
  modified = true;
}

at_start-IsAt : IsAt small_volume two_three 2 at_start 0
at_start-IsAt = record {
  index = 0;
  inside = omega arith;
  cluster = refl;
  offset = refl;
  byte = omega arith;
  sector = inl (omega arith);
}

read_r_example :
    (c : Call ram_store small_volume) × (read_r ram_store small_volume new_cache unset open_file
        sevens 600
      ≡ some c)
    × IsRead ram_store 64 small_volume ram_laws small_volume-IsData disc_image two_three 2
        two_three-IsClusters unset open_file 600 c
read_r_example =
    read_r-IsRead ram_store 64 small_volume ram_laws small_volume-IsData disc_image two_three 2
      two_three-IsClusters new_cache unset open_file sevens 600
      (new_cache-Refines, disc_image-IsByteSectors) (omega arith) (omega arith) (omega arith) refl
      refl (λ e. absurd (omega arith)) (omega arith) (omega arith) at_start-IsAt (inl (omega arith))

seek_r_example :
    IsSought ram_store 64 small_volume ram_laws small_volume-IsData disc_image two_three 2
      two_three-IsClusters unset open_file 600
      (seek_r ram_store small_volume new_cache unset open_file (pos 600) seek_set)
unfolding new_position
seek_r_example =
    seek_r-IsSought ram_store 64 small_volume ram_laws small_volume-IsData disc_image two_three 2
      two_three-IsClusters new_cache unset open_file (pos 600) seek_set 600
      (new_cache-Refines, disc_image-IsByteSectors) (omega arith) refl refl
      (λ e. absurd (omega arith)) refl (omega arith) (omega arith) (omega arith)
      (λ h. at_start-IsAt)

read_r-seek_r_example :
    let s = seek_r ram_store small_volume new_cache unset open_file (pos 600) seek_set in
    (c : Call ram_store small_volume) × (read_r ram_store small_volume s.cache s.errno s.file sevens
        500
      ≡ some c)
    × (c.returned ≡ some 100)
    × ((k : ℕ) → k < 100 → c.buffer k ≡ content disc_image small_volume two_three (600 + k))
    × (c.file.current_position ≡ 700)
unfolding new_position
read_r-seek_r_example =
    read_r-seek_r ram_store 64 small_volume ram_laws small_volume-IsData disc_image two_three 2
      two_three-IsClusters new_cache unset open_file (pos 600) seek_set 600 sevens 500
      (new_cache-Refines, disc_image-IsByteSectors) (omega arith) refl refl refl
      (λ e. absurd (omega arith)) refl (omega arith) (omega arith) (omega arith)
      (λ h. at_start-IsAt) (omega arith) (omega arith)

-- All of the first cluster was read when the file had no more, and then the file grew.
abbrev grown_file : FileStruct
grown_file = record open_file {
  current_position = 512;
  rw_position = record { cluster = 2; sector = 1; byte = 0 };
}

read_r-border_example :
    (c : Call ram_store small_volume) × (read_r ram_store small_volume new_cache unset grown_file
        sevens 10
      ≡ some c)
    × (c.returned ≡ some 10)
    × ((k : ℕ)
        → k < 10
        → c.buffer k ≡ disc_image (position_sector small_volume grown_file.rw_position) k)
unfolding cluster_to_sector
read_r-border_example =
    read_r-border ram_store 64 small_volume ram_laws small_volume-IsData new_cache disc_image unset
      grown_file sevens 10 (new_cache-Refines, disc_image-IsByteSectors) (omega arith) (omega arith)
      refl refl (λ e. absurd (omega arith)) (omega arith) refl refl (omega arith) (omega arith)

two_three-IsChain : IsChain 10 image_links 2 (2 ∷ 3 ∷ [])
unfolding table
two_three-IsChain = (refl, omega arith, omega arith, (refl, omega arith, omega arith, inl refl))

-- The same file, open for appending.
abbrev appending : FileStruct
appending = record open_file { append = true }

ftruncate_r_example :
    (c : TruncateCall ram_store small_volume) × (ftruncate_r ram_store small_volume mounted unset
        appending
        (pos 600)
      ≡ some c)
    × (c.ok ≡ true)
    × (c.file.filesize ≡ 600)
    × (c.file.start_cluster ≡ 2)
    × Shows ram_store 64 small_volume ram_laws small_volume-IsFat disc_image c.volume.cache
        (set (freed image_links []) 3 cluster_eof)
    × (true ≡ true
        → IsAt small_volume
            (chain_cluster ram_store small_volume 64 ram_laws small_volume-IsFat disc_image
              image_links 2
              (3 ∷ []))
            2
            c.file.append_position
            600)
ftruncate_r_example =
    ftruncate_r-Shrunk ram_store small_volume 64 ram_laws small_volume-IsFat disc_image image_links
      small_volume-IsData mounted unset appending (3 ∷ []) 599 new_cache-Shows two_three-IsChain
      refl refl (omega arith) (omega arith)

-- A volume of the two clusters of the file, which is as long as they are.
abbrev full_volume : Partition
full_volume = record small_volume {
  number_of_sectors = 5;
  fat = record { fat_start = 1; sectors_per_fat = 1; last_cluster = 3 };
}

full_volume-IsFat : IsFat full_volume 64
full_volume-IsFat = record {
  known = tt;
  some_bytes = omega arith;
  four = refl;
  region = omega arith;
  no_wrap = omega arith;
  entries = record { inside = omega arith; small = omega arith };
  numbers = omega arith;
}

abbrev full_links : ℕ → ℕ
full_links = table disc_image full_volume

full_links-Shows :
    Shows ram_store 64 full_volume ram_laws full_volume-IsFat disc_image new_cache full_links
full_links-Shows = record {
  sectors = disc_image;
  holds = (new_cache-Refines, disc_image-IsByteSectors);
  spells = λ d. refl;
  outside = λ s o h. refl;
}

full_links-IsChain : IsChain 3 full_links 2 (2 ∷ 3 ∷ [])
unfolding table
full_links-IsChain = (refl, omega arith, omega arith, (refl, omega arith, omega arith, inl refl))

none_free : (d : ℕ) → 2 ≤ d → d ≤ 3 → full_links d ≢ cluster_free
unfolding table
none_free d lo hi = elim (ℕ_discrete d 2) [
  | yes two ↦ rw two (λ e. absurd (omega (arith, e)))
  | no ne ↦ let three : d ≡ 3 = omega arith in rw three (λ e. absurd (omega (arith, e)))
]

abbrev whole_file : FileStruct
whole_file = record open_file { filesize = 1024 }

ftruncate_r-no_room_example :
    (c : TruncateCall ram_store full_volume) × (ftruncate_r ram_store full_volume mounted unset
        whole_file
        (pos 1500)
      ≡ some c)
    × (c.ok ≡ false)
    × (c.errno ≡ enospc)
    × Shows ram_store 64 full_volume ram_laws full_volume-IsFat disc_image c.volume.cache full_links
    × (c.file.start_cluster ≡ 2)
    × (c.file.filesize ≡ 1500)
ftruncate_r-no_room_example =
    ftruncate_r-no_room ram_store full_volume 64 ram_laws full_volume-IsFat disc_image full_links
      mounted unset whole_file (3 ∷ []) 1500 full_links-Shows full_links-IsChain (omega arith)
      none_free refl (omega arith) refl (omega arith) (omega arith) (omega arith) refl refl

-- The partition before a file is open, and with files 5 and 8 open.
abbrev none_open : OpenFiles
none_open = record {
  open_file_count = 0;
  first_open_file = none;
  next_open_file = λ f. none;
  prev_open_file = λ f. none;
}

none_open-IsOpenList : IsOpenList none_open []
none_open-IsOpenList = record { listed = refl; counted = refl; small = omega arith }

insert_open_file_example : IsOpenList (insert_open_file none_open 5) (5 ∷ [])
insert_open_file_example =
    insert_open_file-IsOpenList none_open 5 [] none_open-IsOpenList refl (omega arith)

insert_open_file_list : IsOpenList (insert_open_file none_open 5) (5 ∷ [])
insert_open_file_list =
    insert_open_file-IsOpenList none_open 5 [] none_open-IsOpenList refl (omega arith)

two_open-IsOpenList : IsOpenList (insert_open_file (insert_open_file none_open 5) 8) (8 ∷ 5 ∷ [])
two_open-IsOpenList =
    insert_open_file-IsOpenList (insert_open_file none_open 5) 8 (5 ∷ []) insert_open_file_list refl
      (omega arith)

remove_open_file_example :
    IsOpenList (remove_open_file (insert_open_file (insert_open_file none_open 5) 8) 5) (8 ∷ [])
remove_open_file_example =
    remove_open_file-IsOpenList (insert_open_file (insert_open_file none_open 5) 8) 5 (8 ∷ 5 ∷ [])
      two_open-IsOpenList refl

abbrev noon : Tm
noon = record { tm_sec = 0; tm_min = 0; tm_hour = 12; tm_mday = 1; tm_mon = 0; tm_year = 120 }

abbrev noon_read : Clock
noon_read = record { time = some noon; date = some noon; access = some noon }

sync_to_disc_example :
    Synced ram_store 64 small_volume ram_laws disc_image noon_read open_file
      (sync_to_disc ram_store small_volume noon_read mounted open_file)
unfolding cluster_to_sector
sync_to_disc_example =
    sync_to_disc-Synced ram_store 64 small_volume ram_laws disc_image noon_read mounted open_file
      (new_cache-Refines, disc_image-IsByteSectors) refl refl refl (omega arith) (omega arith)
      (omega arith) (omega arith)

abbrev zeros : Buffer
zeros k = 0

sevens_bytes : (k : ℕ) → sevens k < 256
sevens_bytes k = omega arith

-- 600 bytes over the start of the file.
write_r_example :
    (c : WriteCall ram_store small_volume sevens) × (write_r ram_store small_volume sevens mounted
        unset open_file 600
      ≡ some c)
    × IsWritten ram_store 64 small_volume ram_laws small_volume-IsData disc_image two_three 2
        two_three-IsClusters sevens sevens_bytes unset open_file 600 c
write_r_example =
    write_r-IsWritten ram_store 64 small_volume ram_laws small_volume-IsData disc_image two_three 2
      two_three-IsClusters sevens sevens_bytes mounted unset open_file 600
      (new_cache-Refines, disc_image-IsByteSectors) (omega arith) refl refl refl
      (λ e. absurd (omega arith)) (omega arith) (omega arith) (omega arith) (omega arith)
      at_start-IsAt

read_r-write_r_example :
    (w : WriteCall ram_store small_volume sevens) × (write_r ram_store small_volume sevens mounted
        unset open_file 600
      ≡ some w)
    × (let s = seek_r ram_store small_volume w.volume.cache w.errno w.file (pos 0) seek_set in
        (c : Call ram_store small_volume) × (read_r ram_store small_volume s.cache s.errno s.file
            zeros 600
          ≡ some c)
        × (c.returned ≡ some 600)
        × ((k : ℕ) → k < 600 → c.buffer k ≡ sevens k))
read_r-write_r_example =
    read_r-write_r ram_store 64 small_volume ram_laws small_volume-IsData disc_image two_three 2
      two_three-IsClusters sevens sevens_bytes mounted unset open_file 600 zeros
      (new_cache-Refines, disc_image-IsByteSectors) (omega arith) refl refl refl refl refl
      (λ e. absurd (omega arith)) (omega arith) (omega arith) (omega arith) (omega arith)
      at_start-IsAt

entry_stat-sync_to_disc_example :
    let bytes =
      λ (s : Sectors). dir_entry_bytes ram_store 64 small_volume ram_laws disc_image s open_file in
    let before = entry_stat small_volume 9 (bytes disc_image) in
    (after : Sectors) × ram_laws.Holds
      (sync_to_disc ram_store small_volume noon_read mounted open_file).volume.cache
      after
    × ram_laws.OnMedium
        (sync_to_disc ram_store small_volume noon_read mounted open_file).volume.cache
        after
    × (let st = entry_stat small_volume 9 (bytes after) in
        (st.st_size ≡ 700) × (st.st_ino ≡ 2) × (st.st_mode ≡ before.st_mode) × (st.st_mtime ≡ noon))
unfolding cluster_to_sector
entry_stat-sync_to_disc_example =
    entry_stat-sync_to_disc ram_store 64 small_volume ram_laws disc_image noon_read noon 9 mounted
      open_file (new_cache-Refines, disc_image-IsByteSectors) refl refl refl (omega arith)
      (omega arith) (omega arith) (omega arith) refl refl (omega arith) (omega arith) (omega arith)
      (omega arith) (omega arith) (omega arith) (omega arith) (omega arith)
