-- ===== src/Raft/Storage.antt =====
-- The durable side of Raft: class RaftStorage of raft/raft_storage.cc as far as its members say
-- what the files hold, and the host's `DrainReady` of server/raft_group.cc. A write that fails
-- aborts the process, so the model has the successful ones.
use flotilladb.Base.{ℕ, zero, suc}
use flotilladb.Base.{Bool, true, Option, none, some, List, [], ◌∷◌, ◌++◌}
use flotilladb.Base.{leb, if◌then◌else◌}
use flotilladb.Raft.Types.{Raft, LogEntry, HardState, Snapshot, Ready}
use flotilladb.Raft.Node.{take_ready}

-- hard_, snap_ and entries_
pub record Storage : Type 0 where
  pub hard : HardState
  pub snap : Snapshot
  pub entries : List LogEntry

unfoldable pub pop_back : ℕ → LogEntry → List LogEntry → List LogEntry
pop_back index e [] = if leb index e.index then [] else e ∷ []
pop_back index e (x ∷ xs) = e ∷ x ∷ xs

-- `while (!entries_.empty() && entries_.back().index >= index) entries_.pop_back()`
unfoldable pub pop_from : ℕ → List LogEntry → List LogEntry
unfolding pop_back
pop_from index [] = []
pop_from index (e ∷ es) = pop_back index e (pop_from index es)

-- `TruncateFrom`
unfoldable pub truncate_from : Storage → ℕ → Storage
truncate_from st index = record st { entries = pop_from index st.entries }

-- The entries behind the first one above `last`
unfoldable pub skip_through : ℕ → List LogEntry → List LogEntry
skip_through last [] = []
skip_through last (e ∷ es) =
    let rest = skip_through last es in if leb e.index last then rest else e ∷ es

-- `SaveSnapshot`
unfoldable pub save_snapshot : Storage → Snapshot → Bool → Storage
save_snapshot st snap drop_all = record st {
  snap = snap;
  entries = if drop_all then [] else skip_through snap.last_index st.entries;
}

-- `Append`
unfoldable pub append : Storage → List LogEntry → Storage
append st es = record st { entries = st.entries ++ es }

-- `SaveHardState`
unfoldable pub save_hard_state : Storage → HardState → Storage
save_hard_state st hs = record st { hard = hs }

unfoldable pub persist_snapshot : Storage → Option Snapshot → Storage
persist_snapshot st none = st
persist_snapshot st (some snap) = save_snapshot st snap true

unfoldable pub persist_cut : Storage → ℕ → Storage
persist_cut st zero = st
persist_cut st (suc n) = truncate_from st (suc n)

unfoldable pub persist_hard : Storage → Ready → Storage
persist_hard st ready = if ready.hard_state_changed then save_hard_state st ready.hard_state else st

-- `Persist`
unfoldable pub persist : Storage → Ready → Storage
unfolding persist_snapshot persist_cut persist_hard
persist st ready =
    persist_hard
      (append (persist_cut (persist_snapshot st ready.snapshot_to_apply) ready.truncate_from)
        ready.entries_to_append)
      ready

-- What `DrainReady` does to the core and to the files
unfoldable pub drain : Storage → Raft → Storage × Raft
drain st r = let taken = take_ready r in (persist st taken.0, taken.1)
