-- ===== src/Store/Workspaces.antt =====
-- packages/db/src/threads/workspaces.ts: one workspace per thread, its filesystem generation and its
-- lifecycle transition.
mod Lifecycle
mod Reset
mod Cleanup
mod Review
unfoldable pub use Lifecycle.*
unfoldable pub use Reset.*
unfoldable pub use Cleanup.*
unfoldable pub use Review.*
