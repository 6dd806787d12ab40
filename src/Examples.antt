-- ===== src/Examples.antt =====
-- Each theorem of the header at a concrete volume: sixty-four sectors in memory, a cache of two
-- pages, and a FAT12 table on which 2 → 3 is a chain.
mod Setup
mod CacheRuns
mod TableRuns
mod MountRuns
mod DirectoryRuns
mod FileTimeRuns
mod FileRuns
