-- ===== src/Examples.antt =====
-- Runs of the program at concrete inputs.
pub mod Samples
pub mod Jobs
pub mod Flows
pub mod Records
pub mod Runs
pub mod Blocks
pub mod Queues
pub mod Stores
pub mod Workers
pub mod Boards
pub mod Starts
