-- ===== src/Library.antt =====
-- The installed library: content ids, paths, the index (net/library_index).
pub mod ContentId
pub mod Paths
pub mod Index
pub mod Describe
pub mod IndexFile
