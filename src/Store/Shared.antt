-- ===== src/Store/Shared.antt =====
-- packages/db/src/threads/shared.ts: what every operation of the store uses.
mod Errors
mod Events
mod Context
unfoldable pub use Errors.*
unfoldable pub use Events.*
unfoldable pub use Context.*
