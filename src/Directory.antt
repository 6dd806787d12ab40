-- ===== src/Directory.antt =====
-- source/directory.c and source/directory.h: the entries of a directory.
pub mod Entry
pub mod Position
pub mod Remove
pub mod Stat
