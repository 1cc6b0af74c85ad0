-- ===== src/Api.antt =====
-- crates/api/src/lib.rs, the HTTP server: the handlers and the table of routes. The crates that they
-- read (storage, routes, chain's HttpPool, url, chrono) are not in the repository and are parameters;
-- a value whose type those crates declare is the JSON that serde makes of it.
pub mod Value
pub mod State
pub mod Handlers
pub mod Counts
pub mod Privacy
pub mod Statuses
mod Tests
