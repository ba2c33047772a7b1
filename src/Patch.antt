-- ===== src/Patch.antt =====
-- crates/kiliax-core/src/tools/builtin/apply_patch.rs: a patch is parsed, planned against the files,
-- and applied, with what it changed put back when a write fails.
mod Tests
pub mod Hunks
pub mod Lines
pub mod Diff
pub mod Parse
pub mod Disk
pub mod Plan
pub mod Execute
