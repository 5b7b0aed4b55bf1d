-- ===== src/Tests/Consensus.antt =====
-- Tests of the Raft model, and its theorems at concrete inputs.
use flotilladb.Base.{ℕ, suc, ◌+◌, ◌≤◌, ◌<◌, ◌≡◌, refl}
use flotilladb.Base.{ap, ◌≢◌, Bool, true, false, List, ◌⊎◌, Option, none, some, [], ◌∷◌}
use flotilladb.Base.{arith}
use flotilladb.Raft.Types.{
  Raft, LogEntry, Message, Config, follower, leader, blank, append_entries, no_ready, quorum,
}
use flotilladb.Raft.Map.{get_or}
use flotilladb.Raft.Log.{last_index, entry_at, term_at}
use flotilladb.Raft.Replicate.{
  append_message, emit_committed, emit_rounds, emit_one, maybe_advance_commit, holders,
  advance_from,
}
use flotilladb.Raft.Follower.{merge_entry, merge_entries, accept_entries}
use flotilladb.Raft.Node.{create}
use flotilladb.Raft.Valid.{IsValid}
use flotilladb.Raft.Lasting.{Lawful}
use flotilladb.Raft.Run.{receives, takes, run, run-Lawful}
use flotilladb.Raft.Host.{
  Host, Event, Saving, whole, log_left, nothing, Snapshotting, on_message, on_snapshot,
  maybe_snapshot, serve_all, IsDurable, Continues, AcceptableRun,
}
use flotilladb.Raft.Serving.{serve_all-Continues}
use flotilladb.Raft.Restart.{Resumes, Survives, restart-serve_all}
use flotilladb.Raft.Majority.{
  IsCommittable, maybe_advance_commit_sound, maybe_advance_commit_complete,
}
use flotilladb.Raft.Uncovered.{uncovered_commit}
use flotilladb.Raft.Released.{merge_released, released_replaces}
use flotilladb.Raft.Sent.{IsBatch, append_message-IsBatch}

-- A cluster of three; the distribution gives its lower bound, and counts the draws.
abbrev three : Config
three = record {
  id = 1;
  peers = 1 ∷ 2 ∷ 3 ∷ [];
  election_timeout_min = 10;
  election_timeout_max = 20;
  heartbeat_interval = 2;
  max_entries_per_msg = 128;
  max_bytes_per_msg = 1048576;
  rng_seed = 1;
  dist = λ g lo hi. (lo, g + 1);
}

abbrev entry : ℕ → ℕ → LogEntry
entry term index = record { term = term; index = index; command = 65 ∷ [] }

abbrev core : Raft
core = record {
  config = three;
  hard = record { term = 2; voted_for = 0 };
  log = entry 1 1 ∷ entry 2 2 ∷ [];
  base = record { last_index = 0; last_term = 0; snap_bytes = [] };
  role = follower;
  leader = 0;
  commit = 1;
  last_emitted = 1;
  election_elapsed = 0;
  election_deadline = 10;
  heartbeat_elapsed = 0;
  votes = [];
  next = [];
  matched = [];
  hb_acked = [];
  hb_seq = 0;
  pending_reads = [];
  rng = 1;
  ready = no_ready;
}

core-IsValid : IsValid core
core-IsValid = omega arith

-- An entry of term 2 behind the log, and a commit index of 2
abbrev news : Message
news = record (blank append_entries 1) {
  from = 2;
  term = 2;
  prev_index = 2;
  prev_term = 2;
  entries = entry 2 3 ∷ [];
  commit = 2;
}

abbrev or_core : Option Raft → Raft
or_core none = core
or_core (some r) = r

run-Lawful_example : (s : Raft) × (run core (receives news ∷ takes ∷ []) ≡ some s) × Lawful core s
run-Lawful_example =
    run-Lawful core (receives news ∷ takes ∷ []) core-IsValid
      (((refl, tt), ((λ above low. absurd (omega (arith, low))), tt)), λ s _. (tt, λ t _. tt))

abbrev host : Host
host = record {
  core = core;
  storage = record { hard = core.hard; snap = core.base; entries = core.log };
  applied_since_snapshot = 1;
}

host-IsDurable : IsDurable host
host-IsDurable = record {
  valid = core-IsValid;
  sync = record {
    log = refl;
    snap = refl;
    hard = refl;
    calm_hard = refl;
    calm_cut = refl;
    calm_entries = refl;
    calm_snap = refl;
  };
}

-- The state machine through the first entry, which is written, and which is not
abbrev snapshotting : Saving → Snapshotting
snapshotting saving = record {
  interval = 1;
  applied = 1;
  bytes = 9 ∷ [];
  stopping = false;
  saving = saving;
}

-- A message, and a snapshot that is written
abbrev events : List Event
events = on_message news ∷ on_snapshot (snapshotting whole) ∷ []

events-AcceptableRun : AcceptableRun host events
events-AcceptableRun =
    (((refl, tt), ((λ above low. absurd (omega (arith, low))), tt)), λ g _. (saves, λ k _. tt))
  where
    is_whole : Saving → Bool
    is_whole whole = true
    is_whole log_left = false
    is_whole nothing = false

    saves : whole ≢ nothing
    saves e = cc (let same : is_whole whole ≡ is_whole nothing = ap is_whole e in same)

serve_all-Continues_example : (g : Host) × (serve_all host events ≡ some g) × Continues host g
serve_all-Continues_example = serve_all-Continues host events host-IsDurable events-AcceptableRun

-- Behind the events another save fails, and the host is started again.
restart-serve_all_example :
    (g : Host) × (k : Host) × (r : Raft) × (serve_all host events ≡ some g)
    × (maybe_snapshot g (snapshotting nothing) ≡ some k)
    × (create three k.storage.hard k.storage.entries k.storage.snap ≡ some r)
    × Resumes three g.core r
    × Survives core r
restart-serve_all_example =
    restart-serve_all three host events (snapshotting nothing) host-IsDurable events-AcceptableRun
      refl

-- The core as the leader of its term; peer 2 has both entries.
abbrev head : Raft
head = record core {
  role = leader;
  leader = 1;
  matched = (1, 2) ∷ (2, 2) ∷ (3, 0) ∷ [];
  next = (2, 2) ∷ [];
}

head-IsValid : IsValid head
head-IsValid = omega arith

maybe_advance_commit_sound_example :
    ((maybe_advance_commit head).commit ≡ 1)
    ⊎ ((1 < (maybe_advance_commit head).commit)
        × ((maybe_advance_commit head).commit ≤ last_index head)
        × IsCommittable head (maybe_advance_commit head).commit)
maybe_advance_commit_sound_example = maybe_advance_commit_sound head head-IsValid refl

head-IsCommittable : IsCommittable head 2
unfolding last_index term_at entry_at quorum holders get_or
head-IsCommittable = record { own_term = refl; majority = omega arith }

maybe_advance_commit_complete_example : 2 ≤ (maybe_advance_commit head).commit
unfolding last_index
maybe_advance_commit_complete_example =
    maybe_advance_commit_complete head 2 head-IsValid refl (omega arith) (omega arith)
      head-IsCommittable (λ j a b. absurd (omega arith))

head_advances : (maybe_advance_commit head).commit ≡ 2
unfolding maybe_advance_commit advance_from last_index term_at entry_at quorum holders get_or
    emit_committed emit_rounds emit_one
head_advances = refl

append_message-IsBatch_example :
    IsBatch head (suc (append_message head 2 2).prev_index) 0 (append_message head 2 2).entries
    × ((append_message head 2 2).prev_term ≡ term_at head (append_message head 2 2).prev_index)
unfolding last_index
append_message-IsBatch_example =
    append_message-IsBatch head 2 2 head-IsValid (omega arith) (omega arith)

-- A leader that has committed up to 5 confirms the first entry of `core`, and not the second.
abbrev partial : Message
partial = record (blank append_entries 1) {
  from = 2;
  term = 3;
  prev_index = 0;
  prev_term = 0;
  entries = entry 1 1 ∷ [];
  commit = 5;
}

uncovered_commit_example :
    (s : Raft) × (accept_entries core partial 0 0 (entry 1 1 ∷ []) ≡ some s)
    × (s.commit ≡ last_index core)
    × (1 < s.commit)
    × (merge_entry s (entry 3 2) ≡ none)
unfolding merge_entries merge_entry term_at last_index entry_at
uncovered_commit_example =
    uncovered_commit core partial (entry 3 2) core-IsValid (omega arith) refl refl (omega arith)
      (omega arith) (omega arith) (omega arith) (omega arith)

-- `core` once it has committed both entries, and another entry for the second
abbrev ahead : Raft
ahead = record core { commit = 2; last_emitted = 2 }

released_replaces_example :
    (2 ≤ 2)
    × (term_at ahead 2 ≢ 3)
    × (entry_at (merge_released ahead (entry 3 2)) 2 ≡ some (entry 3 2))
    × (last_index (merge_released ahead (entry 3 2)) ≡ 2)
released_replaces_example = released_replaces ahead (entry 3 2) (omega arith) refused
  where
    refused : merge_entry ahead (entry 3 2) ≡ none
    refused = unfold merge_entry term_at last_index entry_at in refl
