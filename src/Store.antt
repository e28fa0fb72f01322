-- ===== src/Store.antt =====
-- packages/db/src/threads: the durable thread store. Each operation is a transaction on the
-- database record of Schema.
pub mod Schema
pub mod Shared
pub mod Log
pub mod Queue
pub mod Approvals
pub mod Runs
pub mod Submission
pub mod Submit
pub mod Idempotency
pub mod Steps
pub mod Queries
pub mod GitStore
pub mod Commands
pub mod Exclusion
pub mod Fencing
pub mod Wakes
pub mod Proposals
pub mod Retries
pub mod WriteStates
pub mod Decisions
pub mod Restart
pub mod CleanupOutcomes
pub mod MessageOrder
pub mod Transitions
pub mod ThreadRows
pub mod Generations
pub mod Erasure
pub mod Deletion
pub mod Workspaces
pub mod Delivery
pub mod Lifecycle
mod Tests
pub mod History
