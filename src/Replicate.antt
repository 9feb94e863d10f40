-- ===== src/Replicate.antt =====
-- Writes on their way into Raft, from src/pgraft_kv.c to the worker's queue.
pub mod Write
pub mod Leads
mod Tests
