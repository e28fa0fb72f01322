-- ===== src/Store/Log.antt =====
-- The event log of a thread: what `appendEvent` and `appendGitEvent` of
-- packages/db/src/threads/shared.ts and packages/db/src/git-store.ts do to it.
mod Effect
pub mod Dedupe
pub mod Sequence
pub mod Pages
pub mod Steps
pub use Effect.*
