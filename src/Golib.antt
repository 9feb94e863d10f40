-- ===== src/Golib.antt =====
-- The loader of the Go library and the calls through its function pointers, src/pgraft_go.c.
pub mod Loader
pub mod Calls
pub mod Laws
mod Tests
