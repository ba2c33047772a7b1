-- ===== src/Live.antt =====
-- crates/kiliax-server/src/state: what a live session sends to the model.
mod Tests
pub mod Preamble
