-- ===== src/Log.antt =====
-- Logging: the terminal output of src/log.c.
pub mod Defs
pub mod Screen
pub mod Shown
pub mod Clean
