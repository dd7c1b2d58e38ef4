-- ===== src/Capi.antt =====
-- The functions of embedded/include/zeta.h that the Go code calls: their contracts on the heap of
-- live objects. What they answer is the engine's, a parameter.
mod Defs
pub mod Rules
pub mod Known
pub mod Answers
unfoldable pub use Defs.*
