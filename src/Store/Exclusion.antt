-- ===== src/Store/Exclusion.antt =====
-- What the dispatch rule of packages/db/src/threads/commands.ts lets run at a time.
pub mod Rule
pub mod Progress
pub mod Step
pub mod Begin
pub mod Settle
