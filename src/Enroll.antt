-- ===== src/Enroll.antt =====
-- Enrolment: src/enroll.c.
pub mod Paths
pub mod Write
pub mod Keys
pub mod Token
pub mod Request
pub mod Run
pub mod Written
pub mod Atomic
pub mod Kept
pub mod Settled
pub mod Trimmed
pub mod Room
pub mod Ends
pub mod Issued
pub mod Url
pub mod Response
pub mod Reads
pub mod Enrolled
pub mod Left
pub mod Posted
pub mod Obtained
