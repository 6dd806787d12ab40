-- ===== src/Fat.antt =====
-- source/file_allocation_table.c and source/file_allocation_table.h: the links between clusters.
pub mod Entry
pub mod Table
pub mod Chain
