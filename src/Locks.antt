-- ===== src/Locks.antt =====
-- How tasks wait for each other's directories (src/vfs.py: `_DirLock`, `_locked_dirs`, `_forget`). A
-- task runs from one `await` to the next in one step, and tasks take their steps in any order.
pub mod Table
pub mod Counting
pub mod Moves
pub mod Exclusion
