-- ===== src/Tools.antt =====
-- crates/kiliax-core/src/tools: which tools run together, which are allowed, and the ids of calls.
mod Tests
pub mod Groups
pub mod CallIds
pub mod Shell
pub mod Policy
pub mod Overrides
pub mod Paths
pub mod Edit
