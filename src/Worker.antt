-- ===== src/Worker.antt =====
-- The background worker's state in shared memory, include/pgraft_core.h and src/pgraft_util.c.
pub mod State
pub mod Queue
pub mod Fifo
pub mod Refine
pub mod Statuses
pub mod StatusLaws
pub mod StatusUpdates
pub mod RemoveLoop
pub mod Remove
pub mod Apply
pub mod ApplyFifo
mod Tests
