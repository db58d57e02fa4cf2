-- ===== src/Winfs.antt =====
-- The helpers of the Windows file system in src/winfs.
pub mod Names
pub mod Times
pub mod Listing
pub mod Statuses
