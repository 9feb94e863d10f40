-- ===== src/Json.antt =====
-- What src/pgraft_json.c makes of the json-c library's values.
pub mod Values
pub mod Operations
pub mod Entries
pub mod Texts
mod Tests
