-- ===== src/Session/Store.antt =====
-- `FileSessionStore` of crates/kiliax-core/src/session.rs: one session's directory, with the log as
-- a list of lines, each with a mark for its line feed.
pub mod Disk
pub mod Record
pub mod Load
pub mod Settle
pub mod Recover
pub mod Restart
pub mod Torn
pub mod Create
