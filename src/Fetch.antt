-- ===== src/Fetch.antt =====
-- The fetch, verify and apply loop: src/ota_fetch.c.
pub mod Paths
pub mod Download
pub mod Context
pub mod Stages
pub mod Apply
pub mod Run
pub mod FilesTouched
pub mod StagesTouched
pub mod Digested
pub mod Prepared
pub mod Verified
pub mod Gate
pub mod Safety
pub mod History
pub mod Delivered
pub mod Rounds
pub mod Daemon
pub mod Applied
pub mod Traces
pub mod Compared
