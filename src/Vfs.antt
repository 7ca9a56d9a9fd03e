-- ===== src/Vfs.antt =====
-- The file system below its open handles (src/vfs.py).
pub mod Tags
pub mod Chunks
pub mod Entries
pub mod Resolve
pub mod Trash
pub mod Restore
pub mod Purge
pub mod Create
pub mod Overwrite
pub mod Move
pub mod Rows
pub mod Crash
pub mod Insert
pub mod Lookups
pub mod Trashing
pub mod Search
pub mod Scanning
pub mod Searching
