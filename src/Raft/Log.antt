-- ===== src/Raft/Log.antt =====
-- The log of raft.cc behind its base snapshot: `last_index`, `TermAt` and `At`.
use flotilladb.Base.{
  ℕ, ◌+◌, ◌-◌, ◌&&◌, Option, none, some, length, get_elem?, leb, ltb, ◌==◌, if◌then◌else◌,
}
use flotilladb.Raft.Types.{LogEntry, Raft}

unfoldable pub last_index : Raft → ℕ
last_index r = r.base.last_index + length r.log

-- `At`. The code does not check the bounds: `none` is an access outside the vector.
unfoldable pub entry_at : Raft → ℕ → Option LogEntry
entry_at r index = get_elem? r.log (index - r.base.last_index - 1)

term_of : Option LogEntry → ℕ
term_of none = 0
term_of (some e) = e.term

unfoldable pub term_at : Raft → ℕ → ℕ
unfolding last_index entry_at term_of
term_at r index =
    if index == r.base.last_index
    then r.base.last_term
    else if ltb r.base.last_index index && leb index (last_index r)
    then term_of (entry_at r index)
    else 0

unfoldable pub last_term : Raft → ℕ
last_term r = term_at r (last_index r)
