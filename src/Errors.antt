-- ===== src/Errors.antt =====
-- embedded/error.go, and the functions of embedded/zeta.go that make an error.
mod Defs
pub mod Report
pub mod Rules
unfoldable pub use Defs.*
