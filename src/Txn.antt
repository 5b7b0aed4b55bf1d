-- ===== src/Txn.antt =====
-- The transaction layer (txn/).
pub mod Slots
pub mod Standing
pub mod Codec
pub mod Commit
pub mod Refused
pub mod Final
pub mod History
pub mod Keys
pub mod Locks
pub mod Marker
pub mod Ops
pub mod Placing
pub mod Prewrite
pub mod Reads
pub mod Replay
pub mod Rollback
pub mod Run
pub mod Scan
pub mod Searches
pub mod Snapshots
pub mod Unseen
pub mod Valid
pub mod Visible
pub mod Writes
