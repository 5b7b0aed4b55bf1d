-- ===== src/Raft/Follower.antt =====
-- The handlers of AppendEntries and InstallSnapshot in raft.cc. `none` is a failed assertion.
use flotilladb.Base.{ℕ, zero, suc, ◌+◌, ◌-◌, min, max}
use flotilladb.Base.{true, not, ◌&&◌, ◌||◌, Option, none, some, List, [], ◌∷◌, ◌++◌}
use flotilladb.Base.{ltb, leb, ◌==◌, if◌then◌else◌}
use flotilladb.Base.{length, take, drop}
use flotilladb.Raft.Types.{Raft, LogEntry, Message, Snapshot, candidate, blank}
use flotilladb.Raft.Types.{append_entries_resp, install_snapshot_resp}
use flotilladb.Raft.Log.{last_index, term_at}
use flotilladb.Raft.Core.{send, reset_election_timer, become_follower}
use flotilladb.Raft.Replicate.{emit_committed}

-- What `HandleAppendEntries` and `HandleInstallSnapshot` begin with
unfoldable pub follow : Raft → ℕ → Raft
follow r from =
    let s : Raft = elim r.role [ candidate ↦ become_follower r r.hard.term from | _ ↦ r ] in
    reset_election_timer (record s { leader = from })

-- `while (first > base_.last_index + 1 && TermAt(first - 1) == ct) first--`
unfoldable pub first_of_term : Raft → ℕ → ℕ → ℕ
first_of_term r ct zero = zero
first_of_term r ct (suc first) =
    let lower = first_of_term r ct first in
    if ltb (r.base.last_index + 1) (suc first) && term_at r first == ct then lower else suc first

unfoldable pub conflict_hint : Raft → ℕ → ℕ
conflict_hint r prev_index =
    if ltb (last_index r) prev_index
    then last_index r + 1
    else first_of_term r (term_at r prev_index) prev_index

-- `std::erase_if(entries, p.index >= index)`
unfoldable pub below : ℕ → List LogEntry → List LogEntry
below index [] = []
below index (e ∷ es) = let rest = below index es in if leb index e.index then rest else e ∷ rest

unfoldable pub lower_cut : ℕ → ℕ → ℕ
lower_cut before index = if before == 0 || ltb index before then index else before

unfoldable pub truncate_log : Raft → ℕ → Raft
truncate_log r index = record r {
  log = take (index - r.base.last_index - 1) r.log;
  ready = record r.ready {
    truncate_from = lower_cut r.ready.truncate_from index;
    entries_to_append = below index r.ready.entries_to_append;
  };
}

unfoldable pub push_entry : Raft → LogEntry → Raft
push_entry r e = record r {
  log = r.log ++ e ∷ [];
  ready = record r.ready { entries_to_append = r.ready.entries_to_append ++ e ∷ [] };
}

-- One round of the loop over the entries, with `assert(e.index > commit_)`
unfoldable pub merge_entry : Raft → LogEntry → Option Raft
merge_entry r e =
    if leb e.index (last_index r)
    then (if term_at r e.index == e.term
        then some r
        else if ltb r.commit e.index
        then some (push_entry (truncate_log r e.index) e)
        else none)
    else some (push_entry r e)

unfoldable pub merge_entries : Raft → List LogEntry → Option Raft
merge_entries r [] = some r
merge_entries r (e ∷ es) = elim (merge_entry r e) [ none ↦ none | some s ↦ merge_entries s es ]

unfoldable pub follow_commit : Raft → ℕ → Raft
follow_commit r commit =
    if ltb r.commit commit
    then emit_committed (record r { commit = min commit (last_index r) })
    else r

-- From the consistency check on; `prev_index`, `prev_term` and `entries` are the local copies.
unfoldable pub accept_entries : Raft → Message → ℕ → ℕ → List LogEntry → Option Raft
accept_entries r m prev_index prev_term entries =
    let resp : Message = record (blank append_entries_resp m.from) { hb_seq = m.hb_seq } in
    if ltb (last_index r) prev_index || not (term_at r prev_index == prev_term)
    then some (send r (record resp { hint_index = conflict_hint r prev_index }))
    else elim (merge_entries r entries) [
      | none ↦ none
      | some s ↦ some (
          send (follow_commit s m.commit)
            (record resp { success = true; match_index = prev_index + length entries }))
    ]

-- `HandleAppendEntries` after its first lines
unfoldable pub receive_entries : Raft → Message → Option Raft
receive_entries r m =
    let covered = r.base.last_index - m.prev_index in
    if ltb m.prev_index r.base.last_index
    then (if leb (length m.entries) covered
        then some (
            send r (record (blank append_entries_resp m.from) {
              hb_seq = m.hb_seq;
              success = true;
              match_index = max r.base.last_index (m.prev_index + length m.entries);
            }))
        else accept_entries r m r.base.last_index r.base.last_term (drop covered m.entries))
    else accept_entries r m m.prev_index m.prev_term m.entries

-- `HandleAppendEntries`
unfoldable pub handle_append_entries : Raft → Message → Option Raft
handle_append_entries r m = receive_entries (follow r m.from) m

unfoldable pub install : Raft → Message → Raft
install r m =
    let base : Snapshot = record {
      last_index = m.snap_index;
      last_term = m.snap_term;
      snap_bytes = m.snap_data;
    } in
    record r {
      base = base;
      log = [];
      commit = m.snap_index;
      last_emitted = m.snap_index;
      ready = record r.ready {
        entries_to_append = [];
        committed = [];
        truncate_from = 0;
        snapshot_to_apply = some base;
      };
    }

-- `HandleInstallSnapshot` after its first lines
unfoldable pub receive_snapshot : Raft → Message → Raft
receive_snapshot r m =
    let resp : Message = record (blank install_snapshot_resp m.from) { success = true } in
    if leb m.snap_index r.commit
    then send r (record resp { match_index = r.commit })
    else send (install r m) (record resp { match_index = m.snap_index })

-- `HandleInstallSnapshot`
unfoldable pub handle_install_snapshot : Raft → Message → Raft
handle_install_snapshot r m = receive_snapshot (follow r m.from) m
