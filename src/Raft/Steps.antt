-- ===== src/Raft/Steps.antt =====
-- Every call of the host and every message keeps a Raft core valid and extends it.
use flotilladb.Base.{ℕ, ◌+◌, ◌^◌, ◌<◌, refl}
use flotilladb.Base.{inl, inr, Bool, true, false, not, Option, none, some, List}
use flotilladb.Base.{arith, leb, ◌==◌, if◌then◌else◌, Bool-cases}
use flotilladb.Base.{length}
use flotilladb.Raft.Types.{Raft, Role, follower, candidate, leader, succ64}
use flotilladb.Raft.Log.{last_index, term_at}
use flotilladb.Raft.Core.{persist_hard_state, reset_election_timer}
use flotilladb.Raft.Replicate.{broadcast_append, maybe_advance_commit}
use flotilladb.Raft.Node.{
  append_own, next_heartbeat, stand, start_election, tick, tick_leader, tick_other, propose,
  read_as_leader, start_read_index,
}
use flotilladb.Raft.Frame.{request_votes-Sends}
use flotilladb.Raft.Valid.{IsValid}
use flotilladb.Raft.Change.{Safe, Safe-refl, Safe-trans, quiet-Safe, Change-Safe, ballot}
use flotilladb.Raft.Preserve.{
  Sends-Safe, broadcast_append-Safe, append_own-Safe, append_and_send-Safe, become_leader-Safe,
}

-- A result that is no failed assertion is safe.
abbrev pub SafeIf : Raft → Option Raft → Type 0
SafeIf r none = Unit {0}
SafeIf r (some s) = Safe r s

pub if-Safe : {r s t : Raft} (b : Bool) → Safe r s → Safe r t → Safe r (if b then s else t)
if-Safe true h k = h
if-Safe false h k = k

-- The term can be raised without wrapping.
abbrev pub HasTermLeft : Raft → Type 0
HasTermLeft r = r.hard.term + 1 < 2 ^ 64

stand-Safe : {r : Raft} → IsValid r → HasTermLeft r → Safe r (stand r)
unfolding stand persist_hard_state reset_election_timer succ64
stand-Safe v h =
    Change-Safe v
      (ballot (refl, refl, refl, refl) (refl, refl, refl) (refl, refl) (inl (omega arith)))

start_election-Safe : {r : Raft} → IsValid r → HasTermLeft r → Safe r (start_election r)
unfolding start_election
start_election-Safe {r} v h =
    let s = stand-Safe v h in
    if-Safe _ (Safe-trans s (become_leader-Safe s.valid))
      (Safe-trans s (Sends-Safe s.valid (request_votes-Sends _ _)))

tick_leader-Safe : {r : Raft} → IsValid r → Safe r (tick_leader r)
unfolding tick_leader next_heartbeat
tick_leader-Safe {r} v =
    let s : Safe r (next_heartbeat (record r { heartbeat_elapsed = 0 })) =
      quiet-Safe v (refl, refl, refl, refl) (refl, refl, refl) (refl, refl, refl) in
    let idle : Safe r (record r { heartbeat_elapsed = r.heartbeat_elapsed + 1 }) =
      quiet-Safe v (refl, refl, refl, refl) (refl, refl, refl) (refl, refl, refl) in
    if-Safe (leb r.config.heartbeat_interval (r.heartbeat_elapsed + 1))
      (Safe-trans s (broadcast_append-Safe s.valid)) idle

tick_other-Safe : {r : Raft} → IsValid r → HasTermLeft r → Safe r (tick_other r)
unfolding tick_other
tick_other-Safe {r} v h =
    let s : Safe r (record r { election_elapsed = r.election_elapsed + 1 }) =
      quiet-Safe v (refl, refl, refl, refl) (refl, refl, refl) (refl, refl, refl) in
    if-Safe _ (Safe-trans s (start_election-Safe s.valid h)) s

pub by_role-Safe :
    {r f c l : Raft} (role : Role)
    → Safe r f
    → Safe r c
    → Safe r l
    → Safe r (elim role [ follower ↦ f | candidate ↦ c | leader ↦ l ])
by_role-Safe follower p q s = p
by_role-Safe candidate p q s = q
by_role-Safe leader p q s = s

pub tick-Safe : {r : Raft} → IsValid r → HasTermLeft r → Safe r (tick r)
unfolding tick
tick-Safe {r} v h =
    by_role-Safe r.role (tick_other-Safe v h) (tick_other-Safe v h) (tick_leader-Safe v)

pub propose-Safe : {r : Raft} (command : List ℕ) → IsValid r → Safe r (propose r command).0
unfolding propose
propose-Safe {r} command v = go r.role
  where
    go :
        (role : Role)
        → Safe r (
            let p : Raft × Option (ℕ × ℕ) = elim role [
              | leader ↦ (
                maybe_advance_commit (broadcast_append (append_own r command)),
                some (last_index r + 1, r.hard.term),
              )
              | _ ↦ (r, none)
            ] in
            p.0)
    go leader = append_and_send-Safe (append_own-Safe command v)
    go follower = Safe-refl v
    go candidate = Safe-refl v

read_as_leader-Safe : {r : Raft} (ctx : ℕ) → IsValid r → Safe r (read_as_leader r ctx).0
unfolding read_as_leader next_heartbeat
read_as_leader-Safe {r} ctx v = elim (Bool-cases (not (term_at r r.commit == r.hard.term))) [
  | inl e ↦ rw e (Safe-refl v)
  | inr e ↦ rw e (elim (Bool-cases (length r.config.peers == 1)) [
    | inl d ↦ rw d (quiet-Safe v (refl, refl, refl, refl) (refl, refl, refl) (refl, refl, refl))
    | inr d ↦
        rw d (queued (quiet-Safe v (refl, refl, refl, refl) (refl, refl, refl) (refl, refl, refl)))
  ])
]
  where
    queued : {s : Raft} → Safe r s → Safe r (broadcast_append s)
    queued h = Safe-trans h (broadcast_append-Safe h.valid)

pub start_read_index-Safe : {r : Raft} (ctx : ℕ) → IsValid r → Safe r (start_read_index r ctx).0
unfolding start_read_index
start_read_index-Safe {r} ctx v = go r.role
  where
    go :
        (role : Role)
        → Safe r (
            let p : Raft × Bool = elim role [ leader ↦ read_as_leader r ctx | _ ↦ (r, false) ] in
            p.0)
    go leader = read_as_leader-Safe ctx v
    go follower = Safe-refl v
    go candidate = Safe-refl v
