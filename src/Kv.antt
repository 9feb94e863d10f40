-- ===== src/Kv.antt =====
-- The key/value store, src/pgraft_kv.c.
pub mod Store
pub mod Maintain
pub mod View
mod Find
mod Update
mod Create
pub mod Put
pub mod Delete
pub mod Get
pub mod Compact
pub mod Service
mod Counters
pub mod Run
pub mod Durable
pub mod Client
pub mod Race
pub mod Keys
mod Tests
mod Untimed
pub mod Replica
