-- ===== src/Lib.antt =====
-- FlotillaDB: a replicated, sharded, transactional key-value store. Every range of keys is a Raft
-- group (src/raft, src/server) whose state machine writes to a log-structured engine
-- (src/storage), and transactions are Percolator records in that engine (src/txn).
--
-- The parts, and the files that model them:
-- - Raft: class Raft of src/raft/raft.cc and raft.h. Raft/Types has the structs, Raft/Map the hash
--   maps, Raft/Log the log behind the snapshot (`last_index`, `At`, `TermAt`), Raft/Core the steps
--   that all handlers use (`Send`, `PersistHardState`, `BecomeFollower`), Raft/Replicate the
--   sending of entries and the commit index, Raft/Node the constructor, elections and the calls of
--   the host, Raft/Votes, Raft/Follower and Raft/Leader the handlers, Raft/Step the dispatch. A
--   function of the code is a function here, in snake_case; it takes the state of the core and
--   returns the next one, and what it hands to the host collects in the field `ready` as in the
--   code. Raft/Run is any sequence of calls.
-- - Raft/Storage: class RaftStorage of src/raft/raft_storage.cc, as to what the files hold;
--   Raft/Files: their bytes, and `Load`.
--   Raft/Host: a core with its files as src/server/raft_group.cc drives it: each call is followed by
--   `DrainReady` under the same lock, and `MaybeSnapshot` compacts the log; the interval, `stopping_`
--   and how its save ends come with the event. A call that
--   `stopping_` cuts off is no event. Raft/Agreeing, Total and Guarded are about the assertions.
-- - Server/Ranges: the records and commands of src/server/raft_group.cc, and `Contains`. Server/Apply:
--   `ApplyCommand`, `ApplySplit` and the rounds of `ApplyLoop`, which run the transactions of Txn/Ops
--   on the store; Server/Split, Server/Once and Server/Commands are their proofs. The callbacks of
--   the host and the waking of proposers are left out.
-- - Raft/Wire: src/raft/wire.cc, the bytes of a message.
-- - Coding and Crc: src/common/coding.h and src/common/crc32.cc over lists of byte values.
-- - Records and Wal: the record format and src/storage/wal.cc, over the bytes of the file.
-- - Engine/Merging: the choice of the current child in src/storage/merging_iterator.cc, with
--   `InternalCompare` of src/storage/entry.h. Engine/Bloom: the filter of src/storage/bloom.cc; the
--   number of probes that `bits_per_key * 0.69` gives is an argument, since there are no floats here.
-- - Txn/Codec: src/txn/codec.cc, the keys and records of transactions. Txn/Ops and Txn/Scan:
--   src/txn/txn_ops.cc, with the store as a value that each operation takes and returns; a status
--   that is not OK is a failed result. They work on Store, what src/storage/db.h promises of class
--   DB: an ordered map of byte strings with an iterator. The client draws the timestamps from the
--   server; that they are positive and unique, that a commit is not before its start and that an
--   operation is 1 or 2 are premises where a theorem needs them.
-- - Status: src/common/status.cc. Net/Frame and Net/Messages: src/net/frame.cc and
--   src/net/messages.cc over the bytes of a connection, with `ReadFull` of src/net/socket.cc.
-- Base has the shared notation and lemmas. The modules of Raft that are not named above are
-- proofs: Valid is the invariant; Change, Lasting, Preserve, Steps, Messages, Merging and
-- Committed show that the operations keep it; Frame, Cuts, Durable and Serving relate the core to
-- the files. Of Txn, History is the versions of a user key and what searches and writes mean for
-- them, Keys that keys of different purposes differ, Valid the invariant of the store, Searches
-- the searches, Writes the single writes, Prewrite, Commit and Rollback what the operations do,
-- and Run, Unseen, Reads, Snapshots, Visible and Final what transactions may rely on. Refused is
-- about the store directly behind a rollback, Slots and Standing about what a transaction left on
-- a key, behind later operations. Locks, Placing and Marker are lemmas of those, and Replay is a
-- prewrite that is applied again after a crash.
--
-- Bounds. Terms and heartbeat numbers, and what the code computes from a number in a message, wrap
-- at 2 ^ 64; positions in the log are numbers without a bound. A tick is considered only while the
-- term is below 2 ^ 64 - 1. A failed assertion is the result `none`, which ends the run of a
-- model: this is the build with assertions. The default build type, RelWithDebInfo, defines
-- NDEBUG, and the program goes on where `none` stands: Raft/Released has the three places as that
-- build runs them. The draw of the election timeout from std::uniform_int_distribution is a field
-- of the configuration, an arbitrary function. A round of the recovery loop consumes at least the
-- 8 bytes of a record's head, so the fuel of `recover_wal` and of `load_log` is the length of the
-- file. A loop that counts down is recursion on its counter.
--
-- Not modelled: threads, locks and condition variables; sockets and files below the level of whole
-- successful writes, but for the save of `MaybeSnapshot`, whose failure is logged and leaves the
-- core compacted (after a failed write of `DrainReady` the process aborts); snapshots of the state
-- machine; the memtable, the tables and the compaction of the engine; a failure of the file system
-- in the midst of a transaction operation; SQL; the client.
pub mod Base
pub mod Raft
pub mod Coding
pub mod Server
pub mod Status
pub mod Net
pub mod Store
pub mod Crc
pub mod Records
pub mod Wal
pub mod Engine
pub mod Txn
mod Tests
