-- ===== src/Storage.antt =====
-- The storage layer: src/storage and src/include/onebase/storage.
pub mod Disk
pub mod Bytes
pub mod TablePage
pub mod TableHeap
