-- ===== src/Follow.antt =====
-- The live-follow stream of src/follow.rs.
pub mod Sse
pub mod Stream
