-- ===== src/Raft/Messages.antt =====
-- The vote handlers and the first and last steps of the other handlers keep a core valid.
use flotilladb.Base.{ℕ, ◌+◌, min, ◌≡◌, refl}
use flotilladb.Base.{inl, inr, true}
use flotilladb.Base.{arith, ltb, ◌==◌, ltb→lt, Bool-cases}
use flotilladb.Base.{length}
use flotilladb.Raft.Types.{Raft, Message}
use flotilladb.Raft.Map.{put}
use flotilladb.Raft.Log.{last_index}
use flotilladb.Raft.Core.{persist_hard_state, reset_election_timer}
use flotilladb.Raft.Votes.{
  can_vote, up_to_date, record_vote, can_vote, up_to_date, handle_request_vote, count_vote,
  handle_request_vote_resp,
}
use flotilladb.Raft.Follower.{follow, follow_commit}
use flotilladb.Raft.Valid.{IsValid}
use flotilladb.Raft.Change.{Safe, Safe-refl, Safe-trans, quiet-Safe, Change-Safe, ballot}
use flotilladb.Raft.Preserve.{send-Safe, become_follower-Safe, advance-Safe, become_leader-Safe}
use flotilladb.Raft.Steps.{if-Safe, by_role-Safe}

record_vote-Safe :
    {r : Raft} (m : Message)
    → IsValid r
    → can_vote r m ≡ true
    → Safe r (reset_election_timer (record_vote r m.from))
unfolding record_vote reset_election_timer persist_hard_state can_vote
record_vote-Safe {r} m v h = elim (Bool-cases (r.hard.voted_for == m.from)) [
  | inl e ↦ rw e (quiet-Safe v (refl, refl, refl, refl) (refl, refl, refl) (refl, refl, refl))
  | inr e ↦ rw e (
      Change-Safe v (
        ballot (refl, refl, refl, refl) (refl, refl, refl) (refl, refl) (inr (refl, ground arith))))
]

pub handle_request_vote-Safe :
    {r : Raft} (m : Message) → IsValid r → Safe r (handle_request_vote r m)
unfolding handle_request_vote
handle_request_vote-Safe {r} m v = elim (Bool-cases (can_vote r m)) [
  | inl e ↦ rw e (
      let s = if-Safe (up_to_date r m) (record_vote-Safe m v e) (Safe-refl v) in
      Safe-trans s (send-Safe _ s.valid))
  | inr e ↦ rw e (send-Safe _ v)
]

count_vote-Safe : {r : Raft} (m : Message) → IsValid r → Safe r (count_vote r m)
unfolding count_vote
count_vote-Safe {r} m v =
    let s : Safe r (record r { votes = put r.votes m.from m.granted }) =
      quiet-Safe v (refl, refl, refl, refl) (refl, refl, refl) (refl, refl, refl) in
    if-Safe _ (Safe-trans s (become_leader-Safe s.valid)) s

pub handle_request_vote_resp-Safe :
    {r : Raft} (m : Message) → IsValid r → Safe r (handle_request_vote_resp r m)
unfolding handle_request_vote_resp
handle_request_vote_resp-Safe {r} m v =
    by_role-Safe r.role (Safe-refl v) (count_vote-Safe m v) (Safe-refl v)

pub follow-Safe : {r : Raft} (from : ℕ) → IsValid r → Safe r (follow r from)
unfolding follow reset_election_timer
follow-Safe {r} from v =
    let s =
      by_role-Safe r.role (Safe-refl v) (become_follower-Safe r.hard.term from v) (Safe-refl v) in
    Safe-trans s (quiet-Safe s.valid (refl, refl, refl, refl) (refl, refl, refl) (refl, refl, refl))

pub follow_commit-Safe : {r : Raft} (commit : ℕ) → IsValid r → Safe r (follow_commit r commit)
unfolding follow_commit last_index
follow_commit-Safe {r} commit v = elim (Bool-cases (ltb r.commit commit)) [
  | inl e ↦ rw e (
      advance-Safe (min commit (r.base.last_index + length r.log)) v
        (omega (arith, ltb→lt r.commit commit e, v.commit_last)) (omega arith))
  | inr e ↦ rw e (Safe-refl v)
]
