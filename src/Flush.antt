-- ===== src/Flush.antt =====
-- src/virtual_fs/flush.rs: the queue of remote deletes, and the flush of dirty files.
pub mod Deletes
pub mod Batch
pub mod Debounce
