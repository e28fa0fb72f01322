-- ===== src/Store/Lifecycle/Steps.antt =====
-- Each operation keeps the life of the runs.
pub mod Parts
pub mod Commands
pub mod Workspaces
pub mod Runs
pub mod Git
pub mod Submit
