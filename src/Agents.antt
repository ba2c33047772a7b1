-- ===== src/Agents.antt =====
-- `MultiAgentControl` of crates/kiliax-server/src/state/multi_agent.rs: the paths of agents, the agents
-- of a server, and their mailboxes. Each operation holds the lock on the state while it works on it, and
-- so is one step; a wait goes on in turns.
mod Tests
pub mod Paths
pub mod State
pub mod Resolve
pub mod Mailbox
pub mod Steps
pub mod Close
pub mod Mail
pub mod Wait
