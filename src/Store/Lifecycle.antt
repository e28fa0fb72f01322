-- ===== src/Store/Lifecycle.antt =====
-- The life of a run, over every operation of the store.
mod Defs
mod Writes
mod Rows
mod Quiet
pub mod Steps
pub mod Endings
pub use Defs.*
pub use Writes.*
pub use Rows.*
pub use Quiet.*
