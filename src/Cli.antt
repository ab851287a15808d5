-- ===== src/Cli.antt =====
-- The command line: src/main.c.
pub mod Args
pub mod Main
pub mod Options
pub mod Dispatch
