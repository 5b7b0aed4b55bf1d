-- ===== src/Raft/Types.antt =====
-- The data types of raft/raft.h. A byte string is a list of byte values. Terms, heartbeat numbers
-- and what a message says wrap at 2 ^ 64 where the code increments or decrements them; log
-- positions are numbers without a bound, since a log of 2 ^ 64 entries does not exist.
use flotilladb.Base.{ℕ, ◌+◌, ◌-◌, ◌%◌, ◌^◌, ◌/◌, Bool, false, Option, none, List, [], length}
use flotilladb.Raft.Map.{Map}

-- uint64_t: `x + 1` and `x - 1`.
unfoldable pub succ64 : ℕ → ℕ
succ64 x = (x + 1) % 2 ^ 64

unfoldable pub pred64 : ℕ → ℕ
pred64 x = (x + 2 ^ 64 - 1) % 2 ^ 64

pub record LogEntry : Type 0 where
  pub term : ℕ
  pub index : ℕ
  pub command : List ℕ

pub data MsgKind : Type 0 where
  request_vote request_vote_resp append_entries append_entries_resp : MsgKind
  install_snapshot install_snapshot_resp : MsgKind

pub record Message : Type 0 where
  pub kind : MsgKind
  pub from : ℕ
  pub to : ℕ
  pub term : ℕ
  pub last_log_index : ℕ
  pub last_log_term : ℕ
  pub granted : Bool
  pub prev_index : ℕ
  pub prev_term : ℕ
  pub commit : ℕ
  pub hb_seq : ℕ
  pub entries : List LogEntry
  pub success : Bool
  pub match_index : ℕ
  pub hint_index : ℕ
  pub snap_index : ℕ
  pub snap_term : ℕ
  pub snap_data : List ℕ

-- `Message m; m.kind = kind; m.to = to;`
abbrev pub blank : MsgKind → ℕ → Message
blank kind to = record {
  kind = kind;
  from = 0;
  to = to;
  term = 0;
  last_log_index = 0;
  last_log_term = 0;
  granted = false;
  prev_index = 0;
  prev_term = 0;
  commit = 0;
  hb_seq = 0;
  entries = [];
  success = false;
  match_index = 0;
  hint_index = 0;
  snap_index = 0;
  snap_term = 0;
  snap_data = [];
}

pub record HardState : Type 0 where
  pub term : ℕ
  pub voted_for : ℕ

pub record Snapshot : Type 0 where
  pub last_index : ℕ
  pub last_term : ℕ
  pub snap_bytes : List ℕ

pub data Role : Type 0 where
  follower candidate leader : Role

pub record Ready : Type 0 where
  pub hard_state_changed : Bool
  pub hard_state : HardState
  pub truncate_from : ℕ
  pub entries_to_append : List LogEntry
  pub messages : List Message
  pub committed : List LogEntry
  pub confirmed_reads : List (ℕ × ℕ)
  pub snapshot_to_apply : Option Snapshot

abbrev pub no_ready : Ready
no_ready = record {
  hard_state_changed = false;
  hard_state = record { term = 0; voted_for = 0 };
  truncate_from = 0;
  entries_to_append = [];
  messages = [];
  committed = [];
  confirmed_reads = [];
  snapshot_to_apply = none;
}

-- `dist g lo hi` is one draw of `std::uniform_int_distribution` from a generator in state `g`: the
-- value and the next state. It is the standard library's, hence a parameter.
pub record Config : Type 0 where
  pub id : ℕ
  pub peers : List ℕ
  pub election_timeout_min : ℕ
  pub election_timeout_max : ℕ
  pub heartbeat_interval : ℕ
  pub max_entries_per_msg : ℕ
  pub max_bytes_per_msg : ℕ
  pub rng_seed : ℕ
  pub dist : ℕ → ℕ → ℕ → ℕ × ℕ

pub record PendingRead : Type 0 where
  pub ctx : ℕ
  pub read_index : ℕ
  pub hb_seq : ℕ

-- The members of class Raft.
pub record Raft : Type 0 where
  pub config : Config
  pub hard : HardState
  pub log : List LogEntry
  pub base : Snapshot
  pub role : Role
  pub leader : ℕ
  pub commit : ℕ
  pub last_emitted : ℕ
  pub election_elapsed : ℕ
  pub election_deadline : ℕ
  pub heartbeat_elapsed : ℕ
  pub votes : Map Bool
  pub next : Map ℕ
  pub matched : Map ℕ
  pub hb_acked : Map ℕ
  pub hb_seq : ℕ
  pub pending_reads : List PendingRead
  pub rng : ℕ
  pub ready : Ready

-- `config_.peers.size() / 2 + 1`
unfoldable pub quorum : Raft → ℕ
quorum r = length r.config.peers / 2 + 1
