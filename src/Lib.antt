-- ===== src/Lib.antt =====
-- hf-mount mounts a repository of the Hugging Face Hub as a file system. The adapters (FUSE, NFS,
-- WinFsp) call one `VirtualFs`, which keeps an inode table, reads remote files through a read-ahead
-- buffer, stages local writes, and takes in remote changes from a poll loop.
--
-- Parts and files:
--   Prefetch/Chunks, Prefetch/State: src/virtual_fs/prefetch.rs. `PrefetchState` is a record with
--     the source's fields; each `&mut self` method is a function from the state to the new state
--     and the result. Chunks are lists of bytes.
--   Prefetch/Fetch: `fetch_data` of src/virtual_fs/mod.rs, with its attempts and its chunk loop.
--   Prefetch/Read: the remote branch of `VirtualFs::read`, from the buffer hits to the assembly
--     loop. The other files of Prefetch prove: Mirrors that the buffers mirror the file, Serve what
--     a hit returns, Plan what a fetch plan promises, Fetch/Faithful and Fetch/Attempts what is
--     fetched, Read/Stored, Read/Loop and Read/Correct what a read answers.
--   Inode/Entry: `InodeEntry`, `EvictionState` and their methods in src/virtual_fs/inode.rs.
--   Inode/Table: `InodeTable`, lookups, insertion and counters. Inode/Evict: eviction and its
--     candidates. Inode/Remote: remote changes and snapshots. Inode/Tree: unlink, move, removal of a
--     subtree, the nearest directory. The files below each of these prove.
--   Inode/Batch: `evict_batch_if_safe`, the eviction of many inodes.
--   FileCache: the index of src/file_cache.rs, with lookup, eviction and the publication of a
--     download. FileCache/Listed, FileCache/Bounded and FileCache/Populate are its proofs.
--   Poll/Backoff: the `Backoff` of src/virtual_fs/poll.rs.
--   Errors: `Error`, `to_errno` and `is_transient` of src/error.rs.
--   Inode/Tree/Subtree: `update_subtree_paths`. Inode/Run: the methods of the table as steps.
--   Flush/Deletes: the queue of remote deletes of src/virtual_fs/flush.rs. Flush/Batch:
--     `flush_batch`, cut into the snapshot, the uploads, the batch and the answers. Flush/Debounce: the batches
--     of `flush_loop`.
--   Follow/Sse, Follow/Stream: the event-stream parser of src/follow.rs, its typed events and
--     `next_event`, with `strict_descendant_rel` of src/hub_api.rs.
--   Winfs/Names, Winfs/Listing, Winfs/Times, Winfs/Statuses: src/winfs/names.rs, dirlist.rs, time.rs
--     and ntstatus.rs.
--   Poll/Apply, Poll/Diff: `apply_follow_changes` and `apply_poll_diff` of src/virtual_fs/poll.rs on
--     the table and the negative cache. Poll/Session: one iteration of `follow_remote_changes`.
--   Staging: `gc` and `gc_one` of src/virtual_fs/staging.rs on `StagingDir` of src/xet.rs.
--   Base: Boolean tests, lists, machine words, `HashMap` as a list of entries, integers.
--   Tests: runs on concrete inputs.
--
-- Machine words: `add64`, `sub64`, `mul64`, `add32` and `sub32` wrap around as release builds do.
-- A `usize` has 64 bits. Differences of lengths that the source guards are differences of ℕ.
-- The proofs about reads take a file of fewer than 2^64 bytes less 16 MiB (`FORWARD_SKIP`),
-- and show that no sum wraps.
--
-- Loops: the chunk loop of `fetch_data` takes fuel, and a fetch size below the fuel is enough,
-- since a chunk is not empty; the assembly loop takes rounds, and more rounds than bytes to read
-- are enough, since a round adds a byte or ends. The sweep of `remove` takes the number of children
-- that the table lists, which is enough. `nearest_dir_ancestor` takes more than the length of the
-- path, which is enough, since the parent of a path is shorter. The upload loop takes the number of
-- files, which is enough, since a chunk holds 500; the loop of `SseParser::push` takes one more
-- than the bytes of the buffer, since a line ends with a byte. `binary_search` takes the number of
-- entries, which is enough, since a half is shorter. `flush_rounds` takes the number of signals,
-- since a batch takes at least one. `update_subtree_paths` takes any fuel: it ends in the source
-- where no inode is below itself.
--
-- Assumptions: the download streams of xet-core are the parameter `Downloads`, and `IsFaithful`
-- says that a stream yields the file's bytes in order, in chunks that are not empty. An error and a
-- timeout of a chunk are one outcome. The clock is an argument. A method that runs under the lock
-- of its state is one step; where a lock is released in between, as in `populate`, `gc` and
-- `flush_batch`, what others leave is an argument. The atomic counters are plain fields.
-- `Flush.Batch.Outside` is what happens outside of a flush: the disk, the uploads with one result
-- for each file as the source asserts, the answer of the Hub, and what others do to the table while
-- it waits. The streams that the Hub opens are an argument too, under the contract
-- `Poll.Session.Served.Sends`, which is what src/follow.rs documents of the cursors. The decoding
-- of UTF-8 and of JSON and the Unicode upper-case table are arguments. The order in which a
-- `HashMap` is walked is fixed here; the standard library leaves it open.
--
-- Not modelled: the adapters, the clients of the Hub and of xet, processes and services, which are
-- calls of libraries and of the operating system. The shutdown of the flush loop, the requests of
-- a poll round and the local branch of reads are left out too.
pub mod Base
pub mod Prefetch
pub mod Inode
pub mod FileCache
pub mod Poll
pub mod Errors
pub mod Flush
pub mod Follow
pub mod Staging
pub mod Winfs
mod Tests
