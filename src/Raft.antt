-- ===== src/Raft.antt =====
-- The Raft core (raft/raft.h, raft/raft.cc): its data types and state are in Raft/Types, and the
-- operations and their theorems in the other modules below.
pub mod Map
pub mod Types
pub mod Log
pub mod Core
pub mod Replicate
pub mod Node
pub mod Votes
pub mod Follower
pub mod Leader
pub mod Step
pub mod Frame
pub mod Valid
pub mod Change
pub mod Lasting
pub mod Preserve
pub mod Steps
pub mod Messages
pub mod Merging
pub mod Agreeing
pub mod Total
pub mod Committed
pub mod Run
pub mod Storage
pub mod Files
pub mod Wire
pub mod Cuts
pub mod Durable
pub mod Host
pub mod Guarded
pub mod Serving
pub mod Majority
pub mod Uncovered
pub mod Released
pub mod Restart
pub mod Sent
