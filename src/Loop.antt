-- ===== src/Loop.antt =====
-- The background worker, `pgraft_main` of src/pgraft.c.
pub mod Commands
pub mod Iterate
pub mod Sound
pub mod Run
pub mod Progress
pub mod Drain
pub mod Shutdown
pub mod Outcomes
mod Tests
