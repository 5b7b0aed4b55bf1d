-- ===== src/Raft/Core.antt =====
-- The internal steps of raft.cc that every handler uses: sending, persisting, the election timer,
-- and `BecomeFollower`.
use flotilladb.Base.{ℕ}
use flotilladb.Base.{true, List, [], ◌∷◌, ◌++◌}
use flotilladb.Base.{ltb, if◌then◌else◌}
use flotilladb.Raft.Types.{Raft, Message, follower}

unfoldable pub with_messages : Raft → List Message → Raft
with_messages r ms = record r { ready = record r.ready { messages = ms } }

-- `Send`
unfoldable pub send : Raft → Message → Raft
unfolding with_messages
send r m =
    with_messages r (r.ready.messages ++ record m { from = r.config.id; term = r.hard.term } ∷ [])

-- `PersistHardState`
unfoldable pub persist_hard_state : Raft → Raft
persist_hard_state r = record r {
  ready = record r.ready { hard_state_changed = true; hard_state = r.hard };
}

-- `ResetElectionTimer`
unfoldable pub reset_election_timer : Raft → Raft
reset_election_timer r =
    let drawn = r.config.dist r.rng r.config.election_timeout_min r.config.election_timeout_max in
    record r { election_elapsed = 0; election_deadline = drawn.0; rng = drawn.1 }

adopt_term : Raft → ℕ → Raft
unfolding persist_hard_state
adopt_term r term =
    if ltb r.hard.term term
    then persist_hard_state (record r { hard = record { term = term; voted_for = 0 } })
    else r

-- `BecomeFollower`
unfoldable pub become_follower : Raft → ℕ → ℕ → Raft
unfolding adopt_term reset_election_timer
become_follower r term leader = reset_election_timer (record (adopt_term r term) {
  role = follower;
  leader = leader;
  votes = [];
  pending_reads = [];
})
