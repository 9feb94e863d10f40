-- ===== src/GoState.antt =====
-- The Go library's state in shared memory, src/pgraft_state.c.
pub mod State
pub mod Restore
mod Tests
