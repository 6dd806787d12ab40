-- ===== src/Partition.antt =====
-- source/partition.c and source/partition.h: finding and mounting a volume, and its FSinfo sector.
pub mod State
pub mod Find
pub mod Boot
pub mod FsInfo
pub mod Mount
