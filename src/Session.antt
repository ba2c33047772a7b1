-- ===== src/Session.antt =====
-- crates/kiliax-core/src/session.rs: the session store, an append-only log with snapshots.
pub mod State
pub mod Title
pub mod Apply
pub mod Ids
pub mod Entries
pub mod Page
pub mod Store
mod Tests
