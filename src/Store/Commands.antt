-- ===== src/Store/Commands.antt =====
-- packages/db/src/threads/commands.ts: the queue of commands on a workspace.
mod Begin
mod Admit
mod Settle
unfoldable pub use Begin.*
unfoldable pub use Admit.*
unfoldable pub use Settle.*
