-- ===== src/File.antt =====
-- source/fatfile.c and source/fatfile.h: open files.
pub mod State
pub mod Content
pub mod Layout
pub mod Ends
pub mod Read
pub mod Seek
pub mod Next
pub mod Extend
pub mod Write
pub mod Truncate
pub mod OpenFiles
pub mod Sync
