-- ===== src/Compact.antt =====
-- crates/kiliax-core/src/compact.rs: token estimates and the compaction of a context.
mod Tests
pub mod Summary
pub mod Tokens
pub mod Truncate
pub mod Select
pub mod Drop
