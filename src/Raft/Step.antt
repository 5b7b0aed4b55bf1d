-- ===== src/Raft/Step.antt =====
-- `Step` of raft.cc: the comparison of the terms, and the dispatch on the kind of the message.
use flotilladb.Base.{ℕ}
use flotilladb.Base.{Option, some}
use flotilladb.Base.{ltb, if◌then◌else◌}
use flotilladb.Raft.Types.{Raft, Message, MsgKind, blank}
use flotilladb.Raft.Types.{
  request_vote, request_vote_resp, append_entries, append_entries_resp, install_snapshot,
  install_snapshot_resp,
}
use flotilladb.Raft.Core.{send, become_follower}
use flotilladb.Raft.Votes.{handle_request_vote, handle_request_vote_resp}
use flotilladb.Raft.Follower.{handle_append_entries, handle_install_snapshot}
use flotilladb.Raft.Leader.{handle_append_entries_resp, handle_install_snapshot_resp}

-- The reply to a sender whose term is behind
unfoldable pub reply_stale : Raft → Message → MsgKind → Raft
reply_stale r m request_vote = send r (blank request_vote_resp m.from)
reply_stale r m append_entries = send r (blank append_entries_resp m.from)
reply_stale r m install_snapshot = send r (blank install_snapshot_resp m.from)
reply_stale r m _ = r

unfoldable pub sender_leads : MsgKind → ℕ → ℕ
sender_leads append_entries from = from
sender_leads install_snapshot from = from
sender_leads _ from = 0

unfoldable pub dispatch : Raft → Message → MsgKind → Option Raft
dispatch r m request_vote = some (handle_request_vote r m)
dispatch r m request_vote_resp = some (handle_request_vote_resp r m)
dispatch r m append_entries = handle_append_entries r m
dispatch r m append_entries_resp = some (handle_append_entries_resp r m)
dispatch r m install_snapshot = some (handle_install_snapshot r m)
dispatch r m install_snapshot_resp = some (handle_install_snapshot_resp r m)

unfoldable pub step : Raft → Message → Option Raft
step r m =
    if ltb r.hard.term m.term
    then dispatch (become_follower r m.term (sender_leads m.kind m.from)) m m.kind
    else if ltb m.term r.hard.term
    then some (reply_stale r m m.kind)
    else dispatch r m m.kind
