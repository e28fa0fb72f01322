-- ===== src/Store/Steps.antt =====
-- Each operation of the store is made of the writes of one interface: a relation that these keep is
-- kept by every operation.
pub mod Writes
pub mod Parts
pub mod Runs
pub mod Commands
pub mod Workspaces
pub mod Git
pub mod Submit
pub mod Calls
