-- ===== src/Log.antt =====
-- The replicated log of src/pgraft_log.c.
pub mod State
pub mod Ops
pub mod Cleanup
pub mod Inv
pub mod Steps
pub mod Moves
pub mod Run
pub mod Read
pub mod Commits
mod Tests
