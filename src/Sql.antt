-- ===== src/Sql.antt =====
-- The SQL functions: on keys and values, src/pgraft_kv_sql.c, and on nodes, the leader and the log,
-- src/pgraft_sql.c.
pub mod Keys
pub mod Puts
pub mod Texts
pub mod Nodes
pub mod Tables
pub mod Rows
pub mod Leads
mod Tests
