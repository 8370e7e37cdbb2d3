-- ===== src/Memory.antt =====
-- src/testing/index.ts: the driver in memory.
pub mod Keys
pub mod Jobs
pub mod Queue
pub mod Run
pub mod Driver
