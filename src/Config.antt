-- ===== src/Config.antt =====
-- The settings from the environment (src/config.py).
pub mod Values
pub mod Check
pub mod Checked
pub mod Empty
