-- ===== src/Inode.antt =====
-- src/virtual_fs/inode.rs: the inode table and its entries.
pub mod Entry
pub mod Table
pub mod Evict
pub mod Batch
pub mod Remote
pub mod Tree
pub mod Run
