-- ===== src/Lib.antt =====
-- libfat: a FAT12, FAT16 and FAT32 file system for small machines (source/). This is a model of it
-- from the driver of a medium, through the page cache, the file allocation table, the mounting of a
-- volume and the slots of a directory, up to the functions on open files.
--
-- The parts, from the bottom up, and where they stand:
-- - Base, Base/*: tests on numbers, C's unsigned wrap-around (u8, u16, u32, sub32), bit fields, byte
--   buffers as functions from the offset with memcpy and memset, lists with their lengths.
-- - BitOps: source/bit_ops.h, little-endian values in byte arrays. BitOps/RoundTrip proves of it.
-- - Disc: DISC_INTERFACE of source/common.h and source/disc.h. A driver is a parameter: a record with
--   the state of the medium and its two transfers. Contract is what the library relies on (a
--   transfer that reports success moved the bytes, none touches other sectors), IsHealthy a medium
--   without faults (it also succeeds at a transfer of no sectors, which the code never makes). Disc/Ram is a driver in memory that keeps both.
-- - Cache: source/cache.c and source/cache.h. State is CACHE and CACHE_ENTRY with the medium and the
--   global access counter; Page is _FAT_cache_getPage with its search, eviction and loading; Sector
--   has the partial transfers and the little-endian values, Run the runs of sectors, Flush
--   _FAT_cache_flush and _FAT_cache_invalidate. Invariant has the specification: a plain array of
--   sectors, and Refines, which says when pages and medium together stand for one.
-- - Store: the operations that the file system uses of the cache, as a record, with their laws over
--   an array of sectors; Holds is what the store stands for, OnMedium what the medium has after a
--   flush. Store/Cached fills all of it from the cache.
-- - Partition: source/partition.c and source/partition.h. In State, Partition is the part of PARTITION
--   and FAT that nothing writes after mounting, Volume the counters and the store. Find is isValidMBR
--   and FindFirstValidPartition_buf, Boot what _FAT_partition_constructor_buf reads off the boot
--   sector, FsInfo the functions on the FSinfo sector, Mount the constructor as a whole.
-- - Fat: source/file_allocation_table.c and .h. Entry is _FAT_fat_nextCluster and
--   _FAT_fat_writeFatEntry; Table reads a table off the bytes of the sectors, for all three widths of
--   entries; Chain has the functions on chains of clusters, over the table as a function (Shows) and
--   chains as lists (Chains).
-- - Directory: source/directory.c and source/directory.h, in part. Entry has the functions on the 32
--   bytes of an entry, Position the step to the next slot of a directory, Remove
--   _FAT_directory_removeEntry, Stat
--   _FAT_directory_entryStat.
-- - File: source/fatfile.c and source/fatfile.h. State has FILE_POSITION and FILE_STRUCT; Read is
--   _FAT_read_r, Seek _FAT_seek_r, Next _FAT_check_position_for_next_cluster, Extend
--   _FAT_file_extend_r, Write _FAT_write_r, Truncate _FAT_ftruncate_r, Sync _FAT_syncToDisc,
--   _FAT_fsync_r and _FAT_close_r (Clock is what the three readings of the clock give), OpenFiles the list that opening and closing change. Content has the
--   specification: the bytes of a file as a function of the offset, along the clusters of its chain
--   (IsClusters), and what it is for a position to stand for an offset (IsAt). Layout has where these
--   bytes stand on the medium: different offsets at different places, none in the table.
-- - FileTime: source/filetime.c, as it is built with USE_RTC_TIME; what time and localtime_r give is an
--   argument, and what is handed to mktime the result.
-- - Examples: the theorems at a small volume in memory.
--
-- Numbers are natural numbers. The unsigned types keep their wrap-around where the code adds, shifts
-- or subtracts: u32 and the like cut a result to its width, sub32 is the subtraction. Sector
-- numbers, sizes and counters are 32 bits wide, and the theorems bound the end of the partition so that
-- the sums of the code do not wrap; the products of a number of sectors with the bytes of a sector,
-- which index a page or a caller's buffer, are taken as exact.
--
-- Loops are structural where their rounds are bounded by a counter. The others take fuel, and give
-- `none` where it does not suffice; the theorems about them say that the loop ends. A run of
-- sectors takes a round for each sector at most; the search for a free cluster passes twice over the
-- table (search_fuel); a chain has no more clusters than the partition (chain_fuel), since a cluster
-- occurs once in a chain that ends. The loops of a read and of a write over whole clusters take a round
-- for each byte that is left at most; a seek walks as many clusters as it counts down.
--
-- A size_t is 32 bits wide, as on the machines that the library is for, and an off_t an integer that
-- does not overflow. An offset in a caller's buffer is a number beside the buffer. LIMIT_SECTORS, which
-- one of the machines defines to keep a transfer short, is not defined here.
--
-- A local variable that C leaves without a value (`oldValue`, `buf`) is 0 before it is read into.
--
-- Not modelled. Memory: neither allocation, nor its failure, nor freeing (so neither the destructor
-- of the cache). The locks, which are empty functions or calls of a thread library; the glue of
-- source/libfat.c to the C library, and source/wcfat.c. Of the files opening, which needs the search
-- along a path, fstat and the attribute functions; of the directories the walk over long names, the
-- search for a gap, adding an entry and paths, and source/fatdir.c. They use the operations of Store,
-- Fat, Directory and File that are here.
pub mod Base
pub mod BitOps
pub mod Disc
pub mod Cache
pub mod Store
pub mod Partition
pub mod Fat
pub mod Directory
pub mod File
pub mod FileTime
pub mod Examples
