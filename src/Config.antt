-- ===== src/Config.antt =====
-- The configuration variables of src/pgraft_guc.c.
pub mod Urls
pub mod Members
pub mod Lists
pub mod RoundTrip
pub mod Validated
mod Tests
