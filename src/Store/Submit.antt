-- ===== src/Store/Submit.antt =====
-- packages/db/src/threads/submission.ts: `submit`, for a new thread and for a thread that is there,
-- and the edits of messages that wait.
mod Request
mod Checks
mod Accept
mod Pending
unfoldable pub use Request.*
unfoldable pub use Checks.*
unfoldable pub use Accept.*
unfoldable pub use Pending.*
