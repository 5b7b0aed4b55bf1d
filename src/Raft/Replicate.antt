-- ===== src/Raft/Replicate.antt =====
-- Replication in raft.cc: `SendAppend`, `BroadcastAppend`, `EmitCommitted`, `MaybeAdvanceCommit`.
use flotilladb.Base.{ℕ, zero, suc, ◌+◌, ◌-◌}
use flotilladb.Base.{Option, none, some, List, [], ◌∷◌, ◌++◌}
use flotilladb.Base.{ltb, leb, ◌==◌, if◌then◌else◌}
use flotilladb.Base.{length}
use flotilladb.Raft.Types.{
  Raft, LogEntry, Message, leader, blank, append_entries, install_snapshot, quorum,
}
use flotilladb.Raft.Map.{get_or}
use flotilladb.Raft.Log.{last_index, entry_at, term_at}
use flotilladb.Raft.Core.{send}

-- The entries of one AppendEntries message: from index `i` on, `rounds` at most, until one of the
-- two limits is met. `n` entries with `bytes` bytes are in the message so far.
unfoldable pub batch : Raft → (rounds i n bytes : ℕ) → List LogEntry
batch r zero i n bytes = []
batch r (suc k) i n bytes =
    if leb r.config.max_entries_per_msg n
    then []
    else if ltb r.config.max_bytes_per_msg bytes
    then []
    else elim (entry_at r i) [
      | none ↦ []
      | some e ↦ e ∷ batch r k (i + 1) (n + 1) (bytes + length e.command + 24)
    ]

unfoldable pub snapshot_message : Raft → ℕ → Message
snapshot_message r peer = record (blank install_snapshot peer) {
  snap_index = r.base.last_index;
  snap_term = r.base.last_term;
  snap_data = r.base.snap_bytes;
}

unfoldable pub append_message : Raft → ℕ → ℕ → Message
unfolding batch
append_message r peer next = record (blank append_entries peer) {
  prev_index = next - 1;
  prev_term = term_at r (next - 1);
  commit = r.commit;
  hb_seq = r.hb_seq;
  entries = batch r (last_index r + 1 - next) next 0 0;
}

-- `SendAppend`. `next` is above the base's index in the second branch, so `next - 1` cannot wrap.
unfoldable pub send_append : Raft → ℕ → Raft
unfolding snapshot_message append_message
send_append r peer =
    let next = get_or r.next peer 0 in
    if leb next r.base.last_index
    then send r (snapshot_message r peer)
    else send r (append_message r peer next)

-- `BroadcastAppend`, which does not look at its argument
unfoldable pub broadcast_to : List ℕ → Raft → Raft
broadcast_to [] r = r
broadcast_to (peer ∷ peers) r =
    broadcast_to peers (if peer == r.config.id then r else send_append r peer)

unfoldable pub broadcast_append : Raft → Raft
broadcast_append r = broadcast_to r.config.peers r

to_list : Option LogEntry → List LogEntry
to_list none = []
to_list (some e) = e ∷ []

-- One round of the loop of `EmitCommitted`
unfoldable pub emit_one : Raft → Raft
unfolding to_list
emit_one r = record r {
  last_emitted = r.last_emitted + 1;
  ready = record r.ready {
    committed = r.ready.committed ++ to_list (entry_at r (r.last_emitted + 1));
  };
}

unfoldable pub emit_rounds : ℕ → Raft → Raft
emit_rounds zero r = r
emit_rounds (suc k) r = emit_rounds k (emit_one r)

-- `EmitCommitted`: each round raises `last_emitted` by one until it is `commit`.
unfoldable pub emit_committed : Raft → Raft
unfolding emit_rounds
emit_committed r = emit_rounds (r.commit - r.last_emitted) r

-- How many of the peers hold the log up to `n`
unfoldable pub holders : Raft → List ℕ → ℕ → ℕ
holders r [] n = 0
holders r (peer ∷ peers) n =
    if leb n (get_or r.matched peer 0) then suc (holders r peers n) else holders r peers n

-- The loop of `MaybeAdvanceCommit`, from `n` down to `commit`
unfoldable pub advance_from : ℕ → Raft → Raft
advance_from zero r = r
advance_from (suc n) r =
    let lower = advance_from n r in
    if ltb r.commit (suc n)
    then (if term_at r (suc n) == r.hard.term
        then (if leb (quorum r) (holders r r.config.peers (suc n))
            then emit_committed (record r { commit = suc n })
            else lower)
        else r)
    else r

-- `MaybeAdvanceCommit`
unfoldable pub maybe_advance_commit : Raft → Raft
maybe_advance_commit r = elim r.role [ leader ↦ advance_from (last_index r) r | _ ↦ r ]
