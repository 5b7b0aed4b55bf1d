-- ===== src/Raft/Node.antt =====
-- Elections and the calls of the host in raft.cc: `StartElection`, `BecomeLeader`, `Tick`,
-- `Propose`, `StartReadIndex`, `CompactTo`, `TakeReady`, and the constructor.
use flotilladb.Base.{ℕ, ◌+◌, ◌-◌}
use flotilladb.Base.{Bool, true, false, not, ◌&&◌, Option, none, some, List, [], ◌∷◌, ◌++◌}
use flotilladb.Base.{leb, ◌==◌, if◌then◌else◌}
use flotilladb.Base.{length, drop}
use flotilladb.Raft.Types.{
  Raft, LogEntry, HardState, Ready, Config, Snapshot, follower, candidate, leader, blank,
  request_vote, quorum, succ64, no_ready,
}
use flotilladb.Raft.Map.{Map, put}
use flotilladb.Raft.Log.{last_index, last_term, term_at}
use flotilladb.Raft.Core.{send, persist_hard_state, reset_election_timer}
use flotilladb.Raft.Replicate.{broadcast_append, maybe_advance_commit}

-- A new entry of the leader's own term, in `BecomeLeader` and `Propose`
unfoldable pub append_own : Raft → List ℕ → Raft
append_own r command =
    let e : LogEntry = record { term = r.hard.term; index = last_index r + 1; command = command } in
    record r {
      log = r.log ++ e ∷ [];
      matched = put r.matched r.config.id (last_index r + 1);
      ready = record r.ready { entries_to_append = r.ready.entries_to_append ++ e ∷ [] };
    }

put_all : List ℕ → ℕ → Map ℕ → Map ℕ
put_all [] v m = m
put_all (k ∷ ks) v m = put_all ks v (put m k v)

-- The first half of `BecomeLeader`: the role and the progress of the peers
unfoldable pub take_office : Raft → Raft
unfolding put_all
take_office r = record r {
  role = leader;
  leader = r.config.id;
  heartbeat_elapsed = 0;
  next = put_all r.config.peers (last_index r + 1) [];
  matched = put_all r.config.peers 0 [];
  hb_acked = [];
}

unfoldable pub next_heartbeat : Raft → Raft
next_heartbeat r = record r { hb_seq = succ64 r.hb_seq }

-- `BecomeLeader`. The no-op is the entry with the empty command.
unfoldable pub become_leader : Raft → Raft
become_leader r =
    maybe_advance_commit (broadcast_append (next_heartbeat (append_own (take_office r) [])))

unfoldable pub request_votes : List ℕ → Raft → Raft
request_votes [] r = r
request_votes (peer ∷ peers) r = request_votes peers (
    if peer == r.config.id
    then r
    else send r (record (blank request_vote peer) {
      last_log_index = last_index r;
      last_log_term = last_term r;
    }))

-- `StartElection` up to the count of the votes
unfoldable pub stand : Raft → Raft
stand r =
    reset_election_timer
      (record (persist_hard_state (record r {
        role = candidate;
        hard = record { term = succ64 r.hard.term; voted_for = r.config.id };
      })) { leader = 0; votes = (r.config.id, true) ∷ [] })

-- `StartElection`
unfoldable pub start_election : Raft → Raft
start_election r =
    let s = stand r in
    if leb (quorum s) (length s.votes) then become_leader s else request_votes s.config.peers s

-- `Tick`
unfoldable pub tick_leader : Raft → Raft
tick_leader r =
    if leb r.config.heartbeat_interval (r.heartbeat_elapsed + 1)
    then broadcast_append (next_heartbeat (record r { heartbeat_elapsed = 0 }))
    else record r { heartbeat_elapsed = r.heartbeat_elapsed + 1 }

unfoldable pub tick_other : Raft → Raft
tick_other r =
    let s = record r { election_elapsed = r.election_elapsed + 1 } in
    if leb s.election_deadline s.election_elapsed then start_election s else s

unfoldable pub tick : Raft → Raft
tick r = elim r.role [ leader ↦ tick_leader r | _ ↦ tick_other r ]

-- `Propose`: the index and the term of the new entry, or `none` where the code returns false
unfoldable pub propose : Raft → List ℕ → Raft × Option (ℕ × ℕ)
propose r command = elim r.role [
  | leader ↦ (
    maybe_advance_commit (broadcast_append (append_own r command)),
    some (last_index r + 1, r.hard.term),
  )
  | _ ↦ (r, none)
]

-- `StartReadIndex`
unfoldable pub read_as_leader : Raft → ℕ → Raft × Bool
read_as_leader r ctx =
    if not (term_at r r.commit == r.hard.term)
    then (r, false)
    else if length r.config.peers == 1
    then (
      record r {
        ready = record r.ready {
          confirmed_reads = r.ready.confirmed_reads ++ (ctx, r.commit) ∷ [];
        };
      },
      true,
    )
    else (
      broadcast_append (record (next_heartbeat r) {
        pending_reads =
            r.pending_reads
            ++ record { ctx = ctx; read_index = r.commit; hb_seq = succ64 r.hb_seq } ∷ [];
      }),
      true,
    )

unfoldable pub start_read_index : Raft → ℕ → Raft × Bool
start_read_index r ctx = elim r.role [ leader ↦ read_as_leader r ctx | _ ↦ (r, false) ]

-- `CompactTo`; `none` is a failed assertion.
unfoldable pub compact_to : Raft → ℕ → List ℕ → Option Raft
compact_to r applied_index snapshot_data =
    if leb applied_index r.base.last_index
    then some r
    else if leb applied_index r.commit
    then some (record r {
      log = drop (applied_index - r.base.last_index) r.log;
      base = record {
        last_index = applied_index;
        last_term = term_at r applied_index;
        snap_bytes = snapshot_data;
      };
    })
    else none

-- `TakeReady`
unfoldable pub take_ready : Raft → Ready × Raft
take_ready r = (r.ready, record r { ready = no_ready })

-- The assertion of the constructor: the entries are numbered from `i` on.
unfoldable pub numbered : ℕ → List LogEntry → Bool
numbered i [] = true
numbered i (e ∷ es) = e.index == i && numbered (i + 1) es

unfoldable pub initial : Config → HardState → List LogEntry → Snapshot → Raft
initial config hs log base = record {
  config = config;
  hard = hs;
  log = log;
  base = base;
  role = follower;
  leader = 0;
  commit = base.last_index;
  last_emitted = base.last_index;
  election_elapsed = 0;
  election_deadline = 0;
  heartbeat_elapsed = 0;
  votes = [];
  next = [];
  matched = [];
  hb_acked = [];
  hb_seq = 0;
  pending_reads = [];
  rng = config.rng_seed;
  ready = no_ready;
}

-- The constructor; `none` is a failed assertion.
unfoldable pub create : Config → HardState → List LogEntry → Snapshot → Option Raft
unfolding initial
create config hs log base =
    if numbered (base.last_index + 1) log
    then some (reset_election_timer (initial config hs log base))
    else none
