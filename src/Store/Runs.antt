-- ===== src/Store/Runs.antt =====
-- packages/db/src/threads/runs.ts: the life of a run and the ownership of its execution.
mod Start
mod Claims
mod Finish
unfoldable pub use Start.*
unfoldable pub use Claims.*
unfoldable pub use Finish.*
