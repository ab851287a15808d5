-- ===== src/Verify.antt =====
-- Signature verification: src/verify_libcrypto.c and src/verify_libcrypto.h.
pub mod Defs
pub mod Pipeline
pub mod Reads
pub mod Ends
pub mod Soundness
pub mod Authentic
