-- ===== src/Raft/Preserve.antt =====
-- The internal steps of raft.cc keep a state valid and extend it.
use flotilladb.Base.{ℕ, zero, suc, ◌+◌, ◌≤◌, refl, ap}
use flotilladb.Base.{inl, inr, List, []}
use flotilladb.Base.{arith, ltb, leb, ◌==◌, ltb→lt, Bool-cases}
use flotilladb.Base.{length}
use flotilladb.Raft.Types.{Raft, Message, Role, follower, candidate, leader, quorum}
use flotilladb.Raft.Log.{last_index, term_at}
use flotilladb.Raft.Core.{with_messages, persist_hard_state, become_follower, send}
use flotilladb.Raft.Replicate.{
  broadcast_append, emit_committed, advance_from, maybe_advance_commit, holders,
}
use flotilladb.Raft.Node.{append_own, take_office, next_heartbeat, become_leader}
use flotilladb.Raft.Frame.{Sends, send-Sends, broadcast_to-Sends, emit_committed-emitted}
use flotilladb.Raft.Valid.{IsValid}
use flotilladb.Raft.Change.{
  Safe, Safe-refl, Safe-trans, quiet-Safe, Change-Safe, ballot, push, advance,
}

pub Sends-Safe : {r s : Raft} → IsValid r → Sends r s → Safe r s
unfolding with_messages
Sends-Safe v (ms, e) =
    quiet-Safe v
      (
        ap (λ (u : Raft). u.log) e,
        ap (λ (u : Raft). u.base) e,
        ap (λ (u : Raft). u.commit) e,
        ap (λ (u : Raft). u.last_emitted) e,
      )
      (
        ap (λ (u : Raft). u.hard) e,
        ap (λ (u : Raft). u.ready.hard_state_changed) e,
        ap (λ (u : Raft). u.ready.hard_state) e,
      )
      (
        ap (λ (u : Raft). u.ready.truncate_from) e,
        ap (λ (u : Raft). u.ready.entries_to_append) e,
        ap (λ (u : Raft). u.ready.snapshot_to_apply) e,
      )

pub send-Safe : {r : Raft} (m : Message) → IsValid r → Safe r (send r m)
send-Safe m v = Sends-Safe v (send-Sends _ m)

pub become_follower-Safe :
    {r : Raft} (term lead : ℕ) → IsValid r → Safe r (become_follower r term lead)
unfolding become_follower persist_hard_state
become_follower-Safe {r} term lead v = elim (Bool-cases (ltb r.hard.term term)) [
  | inl e ↦ rw e (
      Change-Safe v (
        ballot (refl, refl, refl, refl) (refl, refl, refl) (refl, refl)
          (inl (ltb→lt r.hard.term term e))))
  | inr e ↦ rw e (quiet-Safe v (refl, refl, refl, refl) (refl, refl, refl) (refl, refl, refl))
]

-- Setting the commit index within the log and emitting
pub advance-Safe :
    {r : Raft} (n : ℕ)
    → IsValid r
    → r.commit ≤ n
    → n ≤ r.base.last_index + length r.log
    → Safe r (emit_committed (record r { commit = n }))
advance-Safe {r} n v up lim =
    let (es, e) = emit_committed-emitted (record r { commit = n }) (omega (arith, v.all_emitted)) in
    rw e (Change-Safe v (advance (refl, refl, refl) (refl, refl, refl) (refl, refl, refl) up lim))

pub advance_from-Safe :
    {r : Raft} (n : ℕ)
    → IsValid r
    → n ≤ r.base.last_index + length r.log
    → Safe r (advance_from n r)
unfolding advance_from
advance_from-Safe zero v lim = Safe-refl v
advance_from-Safe {r} (suc n) v lim = elim (Bool-cases (ltb r.commit (suc n))) [
  | inr e ↦ rw e (Safe-refl v)
  | inl e ↦ rw e (elim (Bool-cases (term_at r (suc n) == r.hard.term)) [
    | inr d ↦ rw d (Safe-refl v)
    | inl d ↦ rw d (elim (Bool-cases (leb (quorum r) (holders r r.config.peers (suc n)))) [
      | inl c ↦ rw c (advance-Safe (suc n) v (omega (arith, ltb→lt r.commit (suc n) e)) lim)
      | inr c ↦ rw c (advance_from-Safe n v (omega arith))
    ])
  ])
]

as_leader-Safe :
    {r : Raft} (role : Role) {f : Raft}
    → IsValid r
    → Safe r f
    → Safe r (elim role [ leader ↦ f | _ ↦ r ])
as_leader-Safe leader v h = h
as_leader-Safe follower v h = Safe-refl v
as_leader-Safe candidate v h = Safe-refl v

pub maybe_advance_commit-Safe : {r : Raft} → IsValid r → Safe r (maybe_advance_commit r)
unfolding maybe_advance_commit last_index
maybe_advance_commit-Safe {r} v =
    as_leader-Safe r.role v (advance_from-Safe (last_index r) v (omega arith))

pub broadcast_append-Safe : {r : Raft} → IsValid r → Safe r (broadcast_append r)
unfolding broadcast_append
broadcast_append-Safe {r} v = Sends-Safe v (broadcast_to-Sends r.config.peers r)

pub append_own-Safe : {r : Raft} (command : List ℕ) → IsValid r → Safe r (append_own r command)
unfolding append_own last_index
append_own-Safe command v =
    Change-Safe v
      (push _ (refl, refl, refl, refl) (refl, refl, refl) (refl, refl, refl) (omega arith))

pub append_and_send-Safe :
    {r s : Raft} → Safe r s → Safe r (maybe_advance_commit (broadcast_append s))
append_and_send-Safe h =
    let b = broadcast_append-Safe h.valid in
    Safe-trans h (Safe-trans b (maybe_advance_commit-Safe b.valid))

pub become_leader-Safe : {r : Raft} → IsValid r → Safe r (become_leader r)
unfolding become_leader take_office next_heartbeat
become_leader-Safe {r} v =
    let office =
      quiet-Safe {r = r} {s = take_office r} v (refl, refl, refl, refl) (refl, refl, refl)
        (refl, refl, refl) in
    let own = append_own-Safe [] office.valid in
    append_and_send-Safe (
      Safe-trans office (
        Safe-trans own
          (quiet-Safe own.valid (refl, refl, refl, refl) (refl, refl, refl) (refl, refl, refl))))
