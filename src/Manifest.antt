-- ===== src/Manifest.antt =====
-- Manifests: src/manifest.c and src/manifest.h.
pub mod Defs
pub mod Select
pub mod Load
pub use Defs.*
pub mod Reads
pub mod Parsed
pub mod Described
pub mod Loaded
pub mod Chosen
