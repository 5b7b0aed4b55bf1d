-- ===== src/Raft/Total.antt =====
-- No assertion of raft.cc fails on a message that does not contradict the committed entries.
use flotilladb.Base.{ℕ, suc, ◌+◌, ◌-◌, ◌≤◌, ◌≡◌, refl, ap}
use flotilladb.Base.{inl, inr, true, Option, none, some, List}
use flotilladb.Base.{arith, ltb, leb, ◌==◌, ltb→lt, Bool-cases}
use flotilladb.Base.{length}
use flotilladb.Raft.Types.{
  Snapshot, Raft, LogEntry, Message, MsgKind, Role, follower, candidate, leader,
}
use flotilladb.Raft.Types.{append_entries}
use flotilladb.Raft.Log.{last_index, entry_at, term_at}
use flotilladb.Raft.Core.{become_follower, reset_election_timer, persist_hard_state}
use flotilladb.Raft.Node.{compact_to}
use flotilladb.Raft.Follower.{
  follow, merge_entries, accept_entries, receive_entries, handle_append_entries,
}
use flotilladb.Raft.Step.{dispatch, step, sender_leads}
use flotilladb.Raft.Valid.{Indexed, Indexed-drop, IsValid}
use flotilladb.Raft.Preserve.{become_follower-Safe}
use flotilladb.Raft.Messages.{follow-Safe}
use flotilladb.Raft.Agreeing.{
  Succeeds, Agreeing, Agreeing-same, Agreeing-drop, merge_entries-Succeeds,
}

accept_entries-Succeeds :
    {r : Raft} (m : Message) (prev_index prev_term : ℕ) (es : List LogEntry)
    → IsValid r
    → r.base.last_index ≤ prev_index
    → Indexed (suc prev_index) es
    → Agreeing r es
    → Succeeds (accept_entries r m prev_index prev_term es)
unfolding accept_entries last_index
accept_entries-Succeeds {r} m prev_index prev_term es v from h a =
    elim (Bool-cases (ltb (r.base.last_index + length r.log) prev_index)) [
      | inl d ↦ rw d tt
      | inr d ↦ rw d (elim (Bool-cases (term_at r prev_index == prev_term)) [
        | inr t ↦ rw t tt
        | inl t ↦ rw t (
            go _ (merge_entries r es)
              (merge_entries-Succeeds (suc prev_index) es v (omega arith) (ground arith) h a))
      ])
    ]
  where
    go :
        (f : Raft → Raft) (o : Option Raft)
        → Succeeds o
        → Succeeds (elim o [ none ↦ none | some s ↦ some (f s) ])
    go f none k = absurd k
    go f (some s) k = tt

receive_entries-Succeeds :
    {r : Raft} (m : Message)
    → IsValid r
    → Indexed (suc m.prev_index) m.entries
    → Agreeing r m.entries
    → Succeeds (receive_entries r m)
unfolding receive_entries
receive_entries-Succeeds {r} m v h a = elim (Bool-cases (ltb m.prev_index r.base.last_index)) [
  | inr d ↦ rw d (accept_entries-Succeeds m m.prev_index m.prev_term m.entries v (ground arith) h a)
  | inl d ↦ rw d (elim (Bool-cases (leb (length m.entries) (r.base.last_index - m.prev_index))) [
    | inl e ↦ rw e tt
    | inr e ↦ rw e (
        accept_entries-Succeeds m r.base.last_index r.base.last_term _ v (omega arith)
          (Indexed-drop (r.base.last_index - m.prev_index) (suc m.prev_index)
            (suc r.base.last_index) m.entries
            (omega (arith, ltb→lt m.prev_index r.base.last_index d)) h)
          (Agreeing-drop r (r.base.last_index - m.prev_index) m.entries a))
  ])
]

-- Becoming a follower changes neither the log nor the commit index.
abbrev Unmoved : Raft → Raft → Type 0
Unmoved r s = (s.log ≡ r.log) × (s.base ≡ r.base) × (s.commit ≡ r.commit)

become_follower-Unmoved : (r : Raft) (term lead : ℕ) → Unmoved r (become_follower r term lead)
unfolding become_follower persist_hard_state
become_follower-Unmoved r term lead = elim (Bool-cases (ltb r.hard.term term)) [
  | inl e ↦ rw e (refl, refl, refl)
  | inr e ↦ rw e (refl, refl, refl)
]

follow-Unmoved : (r : Raft) (from : ℕ) → Unmoved r (follow r from)
unfolding follow reset_election_timer
follow-Unmoved r from = go r.role
  where
    stepped : Unmoved r (become_follower r r.hard.term from)
    stepped = become_follower-Unmoved r r.hard.term from

    go : (k : Role) → Unmoved r (elim k [ candidate ↦ become_follower r r.hard.term from | _ ↦ r ])
    go follower = (refl, refl, refl)
    go candidate = stepped
    go leader = (refl, refl, refl)

Agreeing-Unmoved : (r s : Raft) (es : List LogEntry) → Unmoved r s → Agreeing r es → Agreeing s es
unfolding term_at last_index entry_at
Agreeing-Unmoved r s es (l, b, c) a =
    Agreeing-same r s es
      (record {
        base = ap (λ (x : Snapshot). x.last_index) b;
        commit = c;
        terms = λ i above low. rw (l, b) refl;
      })
      a

dispatch-Succeeds :
    {r : Raft} (m : Message) (kind : MsgKind)
    → IsValid r
    → Indexed (suc m.prev_index) m.entries
    → Agreeing r m.entries
    → Succeeds (dispatch r m kind)
unfolding dispatch handle_append_entries
dispatch-Succeeds {r} m append_entries v h a =
    receive_entries-Succeeds m (follow-Safe m.from v).valid h
      (Agreeing-Unmoved r _ m.entries (follow-Unmoved r m.from) a)
dispatch-Succeeds m _ v h a = tt

-- `Step` fails no assertion on a message that does not contradict the committed entries.
pub step-Succeeds :
    {r : Raft} (m : Message)
    → IsValid r
    → Indexed (suc m.prev_index) m.entries
    → Agreeing r m.entries
    → Succeeds (step r m)
unfolding step
step-Succeeds {r} m v h a = elim (Bool-cases (ltb r.hard.term m.term)) [
  | inl d ↦
      let leading = sender_leads m.kind m.from in
      rw d (
        dispatch-Succeeds m m.kind (become_follower-Safe m.term leading v).valid h
          (Agreeing-Unmoved r _ m.entries (become_follower-Unmoved r m.term leading) a))
  | inr d ↦ rw d (elim (Bool-cases (ltb m.term r.hard.term)) [
    | inl e ↦ rw e tt
    | inr e ↦ rw e (dispatch-Succeeds m m.kind v h a)
  ])
]

-- `CompactTo` fails no assertion up to the commit index.
pub compact_to-Succeeds :
    (r : Raft) (applied : ℕ) (snapshot : List ℕ)
    → applied ≤ r.commit
    → Succeeds (compact_to r applied snapshot)
unfolding compact_to
compact_to-Succeeds r applied snapshot low = elim (Bool-cases (leb applied r.base.last_index)) [
  | inl e ↦ rw e tt
  | inr e ↦ let within : leb applied r.commit ≡ true = ground arith in rw (e, within) tt
]
