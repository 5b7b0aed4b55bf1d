-- ===== src/Raft/Votes.antt =====
-- The handlers of the vote messages in raft.cc.
use flotilladb.Base.{ℕ}
use flotilladb.Base.{Bool, ◌&&◌, ◌||◌}
use flotilladb.Base.{ltb, leb, ◌==◌, if◌then◌else◌}
use flotilladb.Raft.Types.{Raft, Message, candidate, blank, quorum}
use flotilladb.Raft.Types.{request_vote_resp}
use flotilladb.Raft.Map.{put, count}
use flotilladb.Raft.Log.{last_index, last_term}
use flotilladb.Raft.Core.{send, persist_hard_state, reset_election_timer}
use flotilladb.Raft.Node.{become_leader}

unfoldable pub up_to_date : Raft → Message → Bool
up_to_date r m =
    ltb (last_term r) m.last_log_term
    || (m.last_log_term == last_term r && leb (last_index r) m.last_log_index)

unfoldable pub can_vote : Raft → Message → Bool
can_vote r m = r.hard.voted_for == 0 || r.hard.voted_for == m.from

unfoldable pub record_vote : Raft → ℕ → Raft
record_vote r from =
    if r.hard.voted_for == from
    then r
    else persist_hard_state (record r { hard = record r.hard { voted_for = from } })

-- `HandleRequestVote`
unfoldable pub handle_request_vote : Raft → Message → Raft
handle_request_vote r m =
    let granted = can_vote r m && up_to_date r m in
    send (if granted then reset_election_timer (record_vote r m.from) else r)
      (record (blank request_vote_resp m.from) { granted = granted })

-- `HandleRequestVoteResp`
unfoldable pub count_vote : Raft → Message → Raft
count_vote r m =
    let s = record r { votes = put r.votes m.from m.granted } in
    if leb (quorum s) (count (λ _ g. g) s.votes) then become_leader s else s

unfoldable pub handle_request_vote_resp : Raft → Message → Raft
handle_request_vote_resp r m = elim r.role [ candidate ↦ count_vote r m | _ ↦ r ]
