-- ===== src/Projection.antt =====
-- apps/web/src/lib/thread-projection.ts: a thread as a client shows it, built from its events.
mod Data
mod Events
mod Texts
mod Parts
mod Apply
mod Cases
mod Snapshot
pub mod Holds
mod Bounds
mod Sound
mod Kept
mod Steps
mod Replay
mod Current
mod LiveOutput
mod Endings
pub mod Follow
mod Tests
unfoldable pub use Data.*
unfoldable pub use Events.*
unfoldable pub use Texts.*
unfoldable pub use Parts.*
unfoldable pub use Apply.*
unfoldable pub use Snapshot.*
unfoldable pub use Cases.*
