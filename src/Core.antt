-- ===== src/Core.antt =====
-- The cluster record of src/pgraft_core.c.
pub mod Cluster
pub mod Members
pub mod Updates
pub mod Run
mod Tests
