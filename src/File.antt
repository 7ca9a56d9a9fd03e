-- ===== src/File.antt =====
-- An open file handle (src/vfs.py: class `DiscordFile`).
pub mod Handle
pub mod Cache
pub mod Layout
pub mod Unwind
pub mod Contents
pub mod Fetch
pub mod Reads
pub mod Commit
pub mod Uploads
pub mod Flushes
pub mod Drains
pub mod Splice
pub mod Overwrites
pub mod Writing
pub mod Reading
pub mod Closing
pub mod Middle
pub mod Replaces
pub mod Patches
pub mod RandomWrites
pub mod Writes
pub mod ReadBack
pub mod Failures
