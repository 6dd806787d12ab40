-- ===== src/Examples/DirectoryRuns.antt =====
-- Directory entries at the example volume.
use libfat.Base.{◌≡◌, arith, refl}
use libfat.Fat.Entry.{cluster_to_sector}
use libfat.Directory.Entry.{DirEntry, entry_get_cluster, get_root_entry}
use libfat.Directory.Entry.Root.{entry_get_cluster-get_root_entry}
use libfat.Directory.Remove.{remove_entry}
use libfat.Directory.Remove.Slots.{Removed, remove_entry-Removed}
use libfat.Examples.Setup.{
  disc_image, disc_image-IsByteSectors, new_cache-Refines, ram_store, ram_laws, small_volume,
  small_volume-IsFat, mounted,
}

root_entry_example :
    let e = (get_root_entry small_volume).1 in
    (entry_get_cluster small_volume e.entry_data ≡ 0)
    × (e.entry_data 0x0B ≡ 0x10)
    × (e.entry_data 0 ≡ 0x2E)
root_entry_example = entry_get_cluster-get_root_entry small_volume (omega arith)

-- The last slot of the root directory, which has one sector.
abbrev last_entry : DirEntry
last_entry = record {
  entry_data = λ i. 0;
  data_start = record { cluster = 0; sector = 0; offset = 15 };
  data_end = record { cluster = 0; sector = 0; offset = 15 };
  filename = λ i. 0;
}

remove_entry_example :
    Removed ram_store 64 small_volume ram_laws small_volume-IsFat disc_image last_entry.data_start
      (remove_entry ram_store small_volume 1 mounted last_entry)
unfolding cluster_to_sector
remove_entry_example =
    remove_entry-Removed ram_store 64 small_volume ram_laws small_volume-IsFat mounted disc_image
      last_entry 0 (new_cache-Refines, disc_image-IsByteSectors) refl (omega arith) (omega arith)
      (omega arith)
