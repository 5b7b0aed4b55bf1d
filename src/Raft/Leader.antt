-- ===== src/Raft/Leader.antt =====
-- The handlers of the replies to AppendEntries and InstallSnapshot in raft.cc.
use flotilladb.Base.{ℕ, ◌+◌, min, max}
use flotilladb.Base.{not, ◌&&◌, List, [], ◌∷◌, ◌++◌}
use flotilladb.Base.{leb, ◌==◌, if◌then◌else◌}
use flotilladb.Raft.Types.{Raft, Message, PendingRead, leader, quorum, succ64, pred64}
use flotilladb.Raft.Map.{get_or, put, count}
use flotilladb.Raft.Replicate.{send_append, maybe_advance_commit}

unfoldable pub record_match : Raft → Message → Raft
record_match r m = record r {
  matched = put r.matched m.from (max (get_or r.matched m.from 0) m.match_index);
  next = put r.next m.from (max (get_or r.next m.from 0) (succ64 m.match_index));
}

unfoldable pub back_off : Raft → Message → Raft
back_off r m =
    let next = get_or r.next m.from 0 in
    let backoff = if m.hint_index == 0 then pred64 next else m.hint_index in
    record r { next = put r.next m.from (max 1 (min backoff (pred64 next))) }

-- Self, and the peers that echoed a heartbeat at least as late as the read
unfoldable pub read_acks : Raft → PendingRead → ℕ
read_acks r pr = 1 + count (λ peer seq. not (peer == r.config.id) && leb pr.hb_seq seq) r.hb_acked

unfoldable pub confirmed : Raft → List PendingRead → List (ℕ × ℕ)
confirmed r [] = []
confirmed r (pr ∷ prs) =
    let rest = confirmed r prs in
    if leb (quorum r) (read_acks r pr) then (pr.ctx, pr.read_index) ∷ rest else rest

unfoldable pub kept : Raft → List PendingRead → List PendingRead
kept r [] = []
kept r (pr ∷ prs) =
    let rest = kept r prs in if leb (quorum r) (read_acks r pr) then rest else pr ∷ rest

-- The end of `HandleAppendEntriesResp`
unfoldable pub confirm_reads : Raft → Raft
confirm_reads r = record r {
  pending_reads = kept r r.pending_reads;
  ready = record r.ready {
    confirmed_reads = r.ready.confirmed_reads ++ confirmed r r.pending_reads;
  };
}

unfoldable pub record_ack : Raft → Message → Raft
record_ack r m = record r {
  hb_acked = put r.hb_acked m.from (max (get_or r.hb_acked m.from 0) m.hb_seq);
}

-- `HandleAppendEntriesResp`
unfoldable pub acknowledge : Raft → Message → Raft
acknowledge r m =
    let s = record_ack r m in
    confirm_reads (
      if m.success
      then maybe_advance_commit (record_match s m)
      else send_append (back_off s m) m.from)

unfoldable pub handle_append_entries_resp : Raft → Message → Raft
handle_append_entries_resp r m = elim r.role [ leader ↦ acknowledge r m | _ ↦ r ]

-- `HandleInstallSnapshotResp`
unfoldable pub handle_install_snapshot_resp : Raft → Message → Raft
handle_install_snapshot_resp r m = elim r.role [
  | leader ↦ (if m.success then maybe_advance_commit (record_match r m) else r)
  | _ ↦ r
]
