-- ===== src/Prefetch.antt =====
-- src/virtual_fs/prefetch.rs, and the remote branch of `VirtualFs::read` in src/virtual_fs/mod.rs.
pub mod Chunks
pub mod State
pub mod Mirrors
pub mod Serve
pub mod Plan
pub mod Fetch
pub mod Read
