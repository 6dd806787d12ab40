-- ===== src/Cache.antt =====
-- source/cache.c and source/cache.h: the page cache between the file system and the medium.
pub mod State
pub mod Invariant
pub mod Page
pub mod Sector
pub mod Run
pub mod Flush
