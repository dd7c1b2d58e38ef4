-- ===== src/Machine.antt =====
-- The machine that the model runs on, and the rules for reasoning about its actions.
mod Defs
pub mod Rules
pub mod Heaps
pub mod Stays
pub mod Gives
pub mod Known
pub mod Tells
unfoldable pub use Defs.*
