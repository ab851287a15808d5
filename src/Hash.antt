-- ===== src/Hash.antt =====
-- SHA-256 helpers: src/hash.c and src/hash.h.
pub mod Hex
pub mod Digest
pub mod Laws
pub mod Ends
pub mod Roundtrip
pub mod Reads
