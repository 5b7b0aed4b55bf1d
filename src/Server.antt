-- ===== src/Server.antt =====
-- The state machine of a Raft group (server/raft_group.cc).
pub mod Apply
pub mod Commands
pub mod Ranges
pub mod Split
pub mod Once
