-- ===== src/Tests.antt =====
-- Tests, and the theorems of the library at concrete inputs.
mod Consensus
mod Encoding
mod Storing
mod Merging
mod Protocol
mod Transactions
mod Outcomes
mod Filter
mod Groups
