-- ===== src/Raft/Uncovered.antt =====
-- A defect of `HandleAppendEntries`: the commit index of a follower rises to
-- `min(m.commit, last_index())`, also over entries that the message did not cover.
use flotilladb.Base.{ℕ, ◌+◌, ◌≤◌, ◌<◌, min, ◌≡◌, refl, ap, ◌∙◌}
use flotilladb.Base.{◌≢◌, true, false, none, some, List}
use flotilladb.Base.{arith, ltb, ◌==◌, lt→ltb, ==_iff}
use flotilladb.Base.{length}
use flotilladb.Raft.Types.{Raft, LogEntry, Message, blank, append_entries_resp}
use flotilladb.Raft.Log.{last_index, term_at}
use flotilladb.Raft.Core.{send, with_messages}
use flotilladb.Raft.Replicate.{emit_committed}
use flotilladb.Raft.Follower.{merge_entry, merge_entries, follow_commit, accept_entries}
use flotilladb.Raft.Frame.{emitted, emit_committed-emitted}
use flotilladb.Raft.Valid.{IsValid}

follow_commit-emitted :
    (r : Raft) (commit : ℕ)
    → IsValid r
    → r.commit < commit
    → last_index r ≤ commit
    → (es : List LogEntry) × (follow_commit r commit
        ≡ emitted (record r { commit = last_index r }) (last_index r) es)
unfolding follow_commit last_index
follow_commit-emitted r commit v h k =
    let reach : min commit (r.base.last_index + length r.log) ≡ r.base.last_index + length r.log =
      omega arith in
    let (es, e) =
      emit_committed-emitted (record r { commit = r.base.last_index + length r.log })
        (omega (arith, v.all_emitted, v.commit_last)) in
    let test : follow_commit r commit
        ≡ emit_committed (record r { commit = min commit (last_index r) }) =
      rw (lt→ltb r.commit commit h) refl in
    (es, test ∙ ap (λ (n : ℕ). emit_committed (record r { commit = n })) reach ∙ e)

conflict-asserts :
    (s : Raft) (e : LogEntry)
    → e.index ≤ s.commit
    → s.commit ≡ last_index s
    → term_at s e.index ≢ e.term
    → merge_entry s e ≡ none
unfolding merge_entry
conflict-asserts s e h k n = ground arith

accepted :
    (r : Raft) (m : Message)
    → m.prev_index ≤ last_index r
    → term_at r m.prev_index ≡ m.prev_term
    → merge_entries r m.entries ≡ some r
    → accept_entries r m m.prev_index m.prev_term m.entries
      ≡ some (
          send (follow_commit r m.commit) (record (blank append_entries_resp m.from) {
            hb_seq = m.hb_seq;
            success = true;
            match_index = m.prev_index + length m.entries;
          }))
unfolding accept_entries
accepted r m prev agree have =
    let near : ltb (last_index r) m.prev_index ≡ false = ground arith in
    let same : (term_at r m.prev_index == m.prev_term) ≡ true = (==_iff _ _).1 agree in
    rw (near, same, have, accept_entries) refl

-- A follower at whose log the consistency check of a message succeeds, whose log already holds the
-- entries of the message, and whose log goes on behind them up to at most the leader's commit
-- index: it commits its whole log, the part behind the message included. An entry for that part
-- with another term fails the assertion `e.index > commit_` afterwards.
pub uncovered_commit :
    (r : Raft) (m : Message) (e : LogEntry)
    → IsValid r
    → m.prev_index ≤ last_index r
    → term_at r m.prev_index ≡ m.prev_term
    → merge_entries r m.entries ≡ some r
    → m.prev_index + length m.entries < e.index
    → e.index ≤ last_index r
    → term_at r e.index ≢ e.term
    → r.commit < e.index
    → last_index r ≤ m.commit
    → (s : Raft) × (accept_entries r m m.prev_index m.prev_term m.entries ≡ some s)
      × (s.commit ≡ last_index r)
      × (m.prev_index + length m.entries < s.commit)
      × (merge_entry s e ≡ none)
unfolding accept_entries send with_messages
uncovered_commit r m e v prev agree have beyond inside differs fresh lim =
    let resp : Message = record (blank append_entries_resp m.from) {
      hb_seq = m.hb_seq;
      success = true;
      match_index = m.prev_index + length m.entries;
    } in
    let (es, p) = follow_commit-emitted r m.commit v (omega arith) lim in
    let whole : (follow_commit r m.commit).commit ≡ last_index r = ap (λ (u : Raft). u.commit) p in
    (
      send (follow_commit r m.commit) resp,
      accepted r m prev agree have,
      whole,
      omega arith,
      ap (λ (u : Raft). merge_entry (send u resp) e) p
          ∙ conflict-asserts
              (send (emitted (record r { commit = last_index r }) (last_index r) es) resp) e inside
              (unfold last_index in refl) (unfold term_at in differs),
    )
