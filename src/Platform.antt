-- ===== src/Platform.antt =====
-- The interface to the code that is not in the repository's sources: the operating system, libcurl
-- and RAUC.
pub mod Types
pub mod Defs
pub mod Steps
pub mod Inversion
pub mod Totality
pub mod Footprint
pub mod Libcrypto
pub mod Json
pub use Types.*
unfoldable pub use Defs.*
pub use Inversion.{or_raise}
pub use Libcrypto.*
pub use Json.*
pub mod Failing
pub mod Posix
pub mod Keygen
pub mod Http
pub mod Onward
