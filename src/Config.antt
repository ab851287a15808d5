-- ===== src/Config.antt =====
-- Configuration: src/config.c and src/config.h.
pub mod Defs
pub use Defs.{Config, zeroed}
pub mod Load
pub mod Complete
pub mod Reads
