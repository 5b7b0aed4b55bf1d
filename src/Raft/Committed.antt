-- ===== src/Raft/Committed.antt =====
-- Every message keeps a Raft core valid and extends it.
use flotilladb.Base.{suc, ◌-◌, refl}
use flotilladb.Base.{inl, inr, Option, none, some}
use flotilladb.Base.{arith, ltb, leb, ltb→lt, Bool-cases}
use flotilladb.Base.{length}
use flotilladb.Raft.Types.{Raft, Message, MsgKind}
use flotilladb.Raft.Types.{
  request_vote, request_vote_resp, append_entries, append_entries_resp, install_snapshot,
  install_snapshot_resp,
}
use flotilladb.Raft.Core.{become_follower}
use flotilladb.Raft.Replicate.{maybe_advance_commit}
use flotilladb.Raft.Follower.{
  follow, receive_entries, handle_append_entries, install, receive_snapshot,
  handle_install_snapshot,
}
use flotilladb.Raft.Leader.{
  record_match, record_ack, back_off, confirm_reads, acknowledge, handle_append_entries_resp,
  handle_install_snapshot_resp,
}
use flotilladb.Raft.Step.{reply_stale, sender_leads, dispatch, step}
use flotilladb.Raft.Frame.{send_append-Sends}
use flotilladb.Raft.Valid.{Indexed, Indexed-drop, IsValid}
use flotilladb.Raft.Change.{Safe, Safe-refl, Safe-trans, quiet-Safe, Change-Safe, replace}
use flotilladb.Raft.Preserve.{
  Sends-Safe, send-Safe, become_follower-Safe, maybe_advance_commit-Safe,
}
use flotilladb.Raft.Steps.{SafeIf, if-Safe, by_role-Safe}
use flotilladb.Raft.Messages.{follow-Safe, handle_request_vote-Safe, handle_request_vote_resp-Safe}
use flotilladb.Raft.Merging.{if-SafeIf, accept_entries-Safe}

receive_entries-Safe :
    {r : Raft} (m : Message)
    → IsValid r
    → Indexed (suc m.prev_index) m.entries
    → SafeIf r (receive_entries r m)
unfolding receive_entries
receive_entries-Safe {r} m v h = elim (Bool-cases (ltb m.prev_index r.base.last_index)) [
  | inr d ↦ rw d (accept_entries-Safe m m.prev_index m.prev_term m.entries v h)
  | inl d ↦ rw d (
      if-SafeIf r (leb (length m.entries) (r.base.last_index - m.prev_index)) _ _ (send-Safe _ v) (
        accept_entries-Safe m r.base.last_index r.base.last_term _ v (
          Indexed-drop (r.base.last_index - m.prev_index) (suc m.prev_index) (suc r.base.last_index)
            m.entries (omega (arith, ltb→lt m.prev_index r.base.last_index d)) h)))
]

pub after-Safe : {r s : Raft} (o : Option Raft) → Safe r s → SafeIf s o → SafeIf r o
after-Safe none p q = tt
after-Safe (some t) p q = Safe-trans p q

handle_append_entries-Safe :
    {r : Raft} (m : Message)
    → IsValid r
    → Indexed (suc m.prev_index) m.entries
    → SafeIf r (handle_append_entries r m)
unfolding handle_append_entries
handle_append_entries-Safe {r} m v h =
    let s = follow-Safe m.from v in
    after-Safe (receive_entries (follow r m.from) m) s (receive_entries-Safe m s.valid h)

receive_snapshot-Safe : {r : Raft} (m : Message) → IsValid r → Safe r (receive_snapshot r m)
unfolding receive_snapshot install
receive_snapshot-Safe {r} m v = elim (Bool-cases (leb m.snap_index r.commit)) [
  | inl d ↦ rw d (send-Safe _ v)
  | inr d ↦ rw d (
      let s : Safe r (install r m) =
        Change-Safe v
          (replace (refl, refl, refl) (refl, refl, refl) (refl, refl, refl) (ground arith)) in
      Safe-trans s (send-Safe _ s.valid))
]

handle_install_snapshot-Safe :
    {r : Raft} (m : Message) → IsValid r → Safe r (handle_install_snapshot r m)
unfolding handle_install_snapshot
handle_install_snapshot-Safe m v =
    let s = follow-Safe m.from v in Safe-trans s (receive_snapshot-Safe m s.valid)

record_match-Safe :
    {r : Raft} (m : Message) → IsValid r → Safe r (maybe_advance_commit (record_match r m))
unfolding record_match
record_match-Safe {r} m v =
    let s : Safe r (record_match r m) =
      quiet-Safe v (refl, refl, refl, refl) (refl, refl, refl) (refl, refl, refl) in
    Safe-trans s (maybe_advance_commit-Safe s.valid)

acknowledge-Safe : {r : Raft} (m : Message) → IsValid r → Safe r (acknowledge r m)
unfolding acknowledge record_ack back_off confirm_reads
acknowledge-Safe {r} m v =
    let a : Safe r (record_ack r m) =
      quiet-Safe v (refl, refl, refl, refl) (refl, refl, refl) (refl, refl, refl) in
    let b : Safe (record_ack r m) (back_off (record_ack r m) m) =
      quiet-Safe a.valid (refl, refl, refl, refl) (refl, refl, refl) (refl, refl, refl) in
    let c =
      if-Safe m.success (record_match-Safe m a.valid)
        (Safe-trans b (Sends-Safe b.valid (send_append-Sends _ m.from))) in
    Safe-trans a (
      Safe-trans c
        (quiet-Safe c.valid (refl, refl, refl, refl) (refl, refl, refl) (refl, refl, refl)))

handle_append_entries_resp-Safe :
    {r : Raft} (m : Message) → IsValid r → Safe r (handle_append_entries_resp r m)
unfolding handle_append_entries_resp
handle_append_entries_resp-Safe {r} m v =
    by_role-Safe r.role (Safe-refl v) (Safe-refl v) (acknowledge-Safe m v)

handle_install_snapshot_resp-Safe :
    {r : Raft} (m : Message) → IsValid r → Safe r (handle_install_snapshot_resp r m)
unfolding handle_install_snapshot_resp
handle_install_snapshot_resp-Safe {r} m v =
    by_role-Safe r.role (Safe-refl v) (Safe-refl v)
      (if-Safe m.success (record_match-Safe m v) (Safe-refl v))

dispatch-Safe :
    {r : Raft} (m : Message) (kind : MsgKind)
    → IsValid r
    → Indexed (suc m.prev_index) m.entries
    → SafeIf r (dispatch r m kind)
unfolding dispatch
dispatch-Safe m request_vote v h = handle_request_vote-Safe m v
dispatch-Safe m request_vote_resp v h = handle_request_vote_resp-Safe m v
dispatch-Safe m append_entries v h = handle_append_entries-Safe m v h
dispatch-Safe m append_entries_resp v h = handle_append_entries_resp-Safe m v
dispatch-Safe m install_snapshot v h = handle_install_snapshot-Safe m v
dispatch-Safe m install_snapshot_resp v h = handle_install_snapshot_resp-Safe m v

reply_stale-Safe :
    {r : Raft} (m : Message) (kind : MsgKind) → IsValid r → Safe r (reply_stale r m kind)
unfolding reply_stale
reply_stale-Safe m request_vote v = send-Safe _ v
reply_stale-Safe m append_entries v = send-Safe _ v
reply_stale-Safe m install_snapshot v = send-Safe _ v
reply_stale-Safe m _ v = Safe-refl v

pub step_all-Safe :
    {r : Raft} (m : Message)
    → IsValid r
    → Indexed (suc m.prev_index) m.entries
    → SafeIf r (step r m)
unfolding step
step_all-Safe {r} m v h = elim (Bool-cases (ltb r.hard.term m.term)) [
  | inl d ↦ rw d (
      let s = become_follower-Safe m.term (sender_leads m.kind m.from) v in
      after-Safe (dispatch (become_follower r m.term (sender_leads m.kind m.from)) m m.kind) s
        (dispatch-Safe m m.kind s.valid h))
  | inr d ↦ rw d (
      if-SafeIf r (ltb m.term r.hard.term) _ _ (reply_stale-Safe m m.kind v)
        (dispatch-Safe m m.kind v h))
]
