-- ===== src/Store/Idempotency.antt =====
-- That a request of packages/db/src/threads/submission.ts may be sent again, at once or after any calls.
mod Homes
mod Memory
mod Rows
mod Writes
mod Survival
pub mod Ids
mod Files
mod Filing
mod Reading
mod Accepted
pub mod Again
