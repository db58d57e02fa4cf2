-- ===== src/Poll.antt =====
-- src/virtual_fs/poll.rs: the back-off of the loops that follow remote changes, and what a batch of
-- remote changes does to the inode table.
pub mod Backoff
pub mod Apply
pub mod Diff
pub mod Session
