-- ===== src/Raft/Merging.antt =====
-- The loop of `HandleAppendEntries` over the entries keeps a core valid.
use flotilladb.Base.{ℕ, suc, ◌+◌, ◌-◌, ◌≤◌, ◌<◌, ◌≡◌, refl}
use flotilladb.Base.{inl, inr, Bool, true, false, not, Option, none, some, List, [], ◌∷◌}
use flotilladb.Base.{arith, ltb, leb, ◌==◌, if◌then◌else◌, ltb→lt, leb→le, Bool-cases}
use flotilladb.Base.{length, take, length-append, length-take}
use flotilladb.Raft.Types.{Raft, LogEntry, Message}
use flotilladb.Raft.Types.{blank}
use flotilladb.Raft.Types.{append_entries_resp}
use flotilladb.Raft.Log.{last_index, term_at}
use flotilladb.Raft.Core.{send}
use flotilladb.Raft.Follower.{
  truncate_log, push_entry, merge_entry, merge_entries, follow_commit, accept_entries,
}
use flotilladb.Raft.Valid.{Indexed, IsValid}
use flotilladb.Raft.Change.{Safe, Safe-refl, Safe-trans, Change-Safe, push, cut}
use flotilladb.Raft.Preserve.{send-Safe}
use flotilladb.Raft.Steps.{SafeIf}
use flotilladb.Raft.Messages.{follow_commit-Safe}

-- One entry with index `j`, above the base and at most one above the end of the log: afterwards
-- the log reaches `j`.
pub record Merged (r : Raft) (j : ℕ) (s : Raft) : Type 0 where
  pub safe : Safe r s
  pub reaches : j ≤ s.base.last_index + length s.log
  pub base_same : s.base ≡ r.base

abbrev pub MergedIf : Raft → ℕ → Option Raft → Type 0
MergedIf r j none = Unit {0}
MergedIf r j (some s) = Merged r j s

truncate_push-Merged :
    {r : Raft} (e : LogEntry)
    → IsValid r
    → r.commit < e.index
    → e.index ≤ r.base.last_index + length r.log
    → Merged r e.index (push_entry (truncate_log r e.index) e)
unfolding push_entry truncate_log
truncate_push-Merged {r} e v above lim =
    let size = length-take (e.index - r.base.last_index - 1) r.log in
    let shorter : Safe r (truncate_log r e.index) =
      Change-Safe v
        (cut e.index (refl, refl, refl, refl) (refl, refl, refl) (refl, refl, refl) above) in
    record {
      safe = Safe-trans shorter (
          Change-Safe shorter.valid (
            push e (refl, refl, refl, refl) (refl, refl, refl) (refl, refl, refl)
              (omega (arith, size, v.base_commit))));
      reaches = omega (
        arith,
        size,
        v.base_commit,
        length-append (take (e.index - r.base.last_index - 1) r.log) (e ∷ []),
      );
      base_same = refl;
    }

push-Merged :
    {r : Raft} (e : LogEntry)
    → IsValid r
    → e.index ≡ suc (r.base.last_index + length r.log)
    → Merged r e.index (push_entry r e)
unfolding push_entry
push-Merged {r} e v h = record {
  safe = Change-Safe v (push e (refl, refl, refl, refl) (refl, refl, refl) (refl, refl, refl) h);
  reaches = omega (arith, length-append r.log (e ∷ []));
  base_same = refl;
}

pub merge_entry-Merged :
    {r : Raft} (e : LogEntry)
    → IsValid r
    → e.index ≤ suc (r.base.last_index + length r.log)
    → MergedIf r e.index (merge_entry r e)
unfolding merge_entry last_index
merge_entry-Merged {r} e v lim =
    elim (Bool-cases (leb e.index (r.base.last_index + length r.log))) [
      | inr d ↦ rw d (push-Merged e v (ground arith))
      | inl d ↦ rw d (elim (Bool-cases (term_at r e.index == e.term)) [
        | inl t ↦
            rw t (record { safe = Safe-refl v; reaches = leb→le e.index _ d; base_same = refl })
        | inr t ↦ rw t (elim (Bool-cases (ltb r.commit e.index)) [
          | inl c ↦ rw c (truncate_push-Merged e v (ltb→lt r.commit _ c) (leb→le e.index _ d))
          | inr c ↦ rw c tt
        ])
      ])
    ]

-- The loop over the entries, from index `j` on
merge_entries-Safe :
    {r : Raft} (j : ℕ) (es : List LogEntry)
    → IsValid r
    → j ≤ suc (r.base.last_index + length r.log)
    → Indexed j es
    → SafeIf r (merge_entries r es)
unfolding merge_entries
merge_entries-Safe j [] v lim h = Safe-refl v
merge_entries-Safe {r} j (e ∷ es) v lim h =
    go (merge_entry r e) (merge_entry-Merged e v (omega arith))
      (λ s. merge_entries-Safe {r = s} (suc j) es)
  where
    then_Safe : {s : Raft} (o : Option Raft) → Safe r s → SafeIf s o → SafeIf r o
    then_Safe none p q = tt
    then_Safe (some t) p q = Safe-trans p q

    go :
        (o : Option Raft)
        → MergedIf r e.index o
        → ((s : Raft)
            → IsValid s
            → suc j ≤ suc (s.base.last_index + length s.log)
            → Indexed (suc j) es
            → SafeIf s (merge_entries s es))
        → SafeIf r (elim o [ none ↦ none | some s ↦ merge_entries s es ])
    go none m ih = tt
    go (some s) m ih =
        then_Safe (merge_entries s es) m.safe (ih s m.safe.valid (omega (arith, m.reaches)) h.1)

pub if-SafeIf :
    (r : Raft) (b : Bool) (o p : Option Raft)
    → SafeIf r o
    → SafeIf r p
    → SafeIf r (if b then o else p)
if-SafeIf r true o p h k = h
if-SafeIf r false o p h k = k

pub accept_entries-Safe :
    {r : Raft} (m : Message) (prev_index prev_term : ℕ) (es : List LogEntry)
    → IsValid r
    → Indexed (suc prev_index) es
    → SafeIf r (accept_entries r m prev_index prev_term es)
unfolding accept_entries last_index
accept_entries-Safe {r} m prev_index prev_term es v h =
    elim (Bool-cases (ltb (r.base.last_index + length r.log) prev_index)) [
      | inl d ↦ rw d (send-Safe _ v)
      | inr d ↦ rw d (
          if-SafeIf r (not (term_at r prev_index == prev_term)) _ _ (send-Safe _ v)
            (go (merge_entries r es) (merge_entries-Safe (suc prev_index) es v (ground arith) h)))
    ]
  where
    go :
        (o : Option Raft)
        → SafeIf r o
        → SafeIf r (elim o [
          | none ↦ none
          | some s ↦ some (
              send (follow_commit s m.commit) (record (blank append_entries_resp m.from) {
                hb_seq = m.hb_seq;
                success = true;
                match_index = prev_index + length es;
              }))
        ])
    go none p = tt
    go (some s) p =
        let q = follow_commit-Safe m.commit p.valid in
        Safe-trans p (Safe-trans q (send-Safe _ q.valid))
