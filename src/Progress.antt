-- ===== src/Progress.antt =====
-- Progress of a download: `download_progress_callback` of src/ota_fetch.c, and what it calls of src/log.c.
pub mod Defs
pub mod Percent
pub mod Lines
pub mod Spaced
