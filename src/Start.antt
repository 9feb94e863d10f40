-- ===== src/Start.antt =====
-- The start of a node: `pgraft_init_from_gucs` of src/pgraft_sql.c and what `pgraft_main` of
-- src/pgraft.c does before its loop.
pub mod Init
pub mod Laws
mod Tests
