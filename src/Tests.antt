-- ===== src/Tests.antt =====
-- Runs of the models on concrete inputs, for src/virtual_fs/prefetch.rs, src/virtual_fs/mod.rs,
-- src/virtual_fs/inode.rs, src/virtual_fs/poll.rs, src/virtual_fs/flush.rs, src/file_cache.rs,
-- src/virtual_fs/staging.rs, src/follow.rs and src/winfs.
mod Streams
mod Cache
mod Polls
mod Inodes
mod Flushes
mod Follows
mod Windows
mod Remote
mod Staged
