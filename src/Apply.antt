-- ===== src/Apply.antt =====
-- The application of committed entries, src/pgraft_apply.c.
pub mod Entries
pub mod RoundTrip
pub mod Operations
pub mod Stores
pub mod Replayed
mod Tests
