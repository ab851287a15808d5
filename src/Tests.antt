-- ===== src/Tests.antt =====
-- A small machine, runs of the program on it, and the theorems at concrete data.
mod Machine
mod Lawful
mod Keys
mod Site
mod Posix
mod Bureau
mod Enrolments
mod Enrolling
mod Reporting
mod Terminal
mod Runs
mod Witnesses
