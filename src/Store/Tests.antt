-- ===== src/Store/Tests.antt =====
-- Runs of the store on a small database.
mod Data
mod Histories
mod Pages
mod Commands
mod Runs
mod Workspaces
mod Effects
mod Git
mod Outbox
mod Submission
