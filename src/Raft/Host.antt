-- ===== src/Raft/Host.antt =====
-- A Raft core with its files, driven as server/raft_group.cc drives it: each call is followed by
-- `DrainReady` under the same lock, `MaybeSnapshot` compacts the log and saves the snapshot, and
-- `ApplyLoop` counts the entries that it applies.
use flotilladb.Base.{ℕ, suc, ◌≡◌}
use flotilladb.Base.{Bool, true, false, Option, none, some, List, [], ◌∷◌}
use flotilladb.Base.{◌+◌, ◌≢◌, ◌||◌, ◌==◌, ltb, if◌then◌else◌}
use flotilladb.Raft.Types.{Raft, Message}
use flotilladb.Raft.Node.{tick, propose, start_read_index, compact_to}
use flotilladb.Raft.Step.{step}
use flotilladb.Raft.Storage.{Storage, save_snapshot, drain}
use flotilladb.Raft.Durable.{InSync}
use flotilladb.Raft.Agreeing.{Agreeing}
use flotilladb.Raft.Valid.{Indexed, IsValid}
use flotilladb.Raft.Lasting.{Lawful}
use flotilladb.Raft.Steps.{HasTermLeft}

pub record Host : Type 0 where
  pub core : Raft
  pub storage : Storage
  pub applied_since_snapshot : ℕ

-- How `SaveSnapshot` ends: with success, with an error behind the write of the snapshot, where
-- `Load` skips the covered front of the log that is left, or with an error at that write.
pub data Saving : Type 0 where
  whole : Saving
  log_left : Saving
  nothing : Saving

-- What `MaybeSnapshot` finds outside the core: the interval of the options, `applied_index_`, the
-- state machine serialised through it, `stopping_`, and how the save will end.
pub record Snapshotting : Type 0 where
  pub interval : ℕ
  pub applied : ℕ
  pub bytes : List ℕ
  pub stopping : Bool
  pub saving : Saving

pub data Event : Type 0 where
  on_tick : Event
  on_message : Message → Event
  on_propose : List ℕ → Event
  on_read : ℕ → Event
  on_snapshot : Snapshotting → Event
  on_applied : Event
  on_restored : Event

-- `DrainReady` after a call that has left the core in a state, or has failed an assertion
unfoldable pub drained : Host → Option Raft → Option Host
drained h none = none
drained h (some r) = let d = drain h.storage r in some (record h { core = d.1; storage = d.0 })

-- `SaveSnapshot` and what follows it, once the core is compacted: an error is logged only.
unfoldable pub saved : Host → Option Raft → Saving → Option Host
saved h none saving = none
saved h (some r) whole = some (record h {
  core = r;
  storage = save_snapshot h.storage r.base false;
  applied_since_snapshot = 0;
})
saved h (some r) log_left =
    some (record h { core = r; storage = save_snapshot h.storage r.base false })
saved h (some r) nothing = some (record h { core = r })

-- `MaybeSnapshot`
unfoldable pub maybe_snapshot : Host → Snapshotting → Option Host
unfolding saved
maybe_snapshot h a =
    if a.interval == 0
    then some h
    else if ltb h.applied_since_snapshot a.interval
    then some h
    else if a.stopping || ltb h.core.commit a.applied
    then some h
    else saved h (compact_to h.core a.applied a.bytes) a.saving

-- `ProposeAndWait` and `LinearizableReadBarrier` up to their waits: they drain unless the core
-- refuses.
unfoldable pub proposed : Host → Raft × Option (ℕ × ℕ) → Option Host
proposed h (r, none) = some h
proposed h (r, some at) = drained h (some r)

unfoldable pub asked : Host → Raft × Bool → Option Host
asked h (r, false) = some h
asked h (r, true) = drained h (some r)

unfoldable pub serve : Host → Event → Option Host
unfolding drained proposed asked maybe_snapshot
serve h on_tick = drained h (some (tick h.core))
serve h (on_message m) = drained h (step h.core m)
serve h (on_propose command) = proposed h (propose h.core command)
serve h (on_read ctx) = asked h (start_read_index h.core ctx)
serve h (on_snapshot a) = maybe_snapshot h a
serve h on_applied = some (record h { applied_since_snapshot = h.applied_since_snapshot + 1 })
serve h on_restored = some (record h { applied_since_snapshot = 0 })

unfoldable pub serve_all : Host → List Event → Option Host
serve_all h [] = some h
serve_all h (e ∷ es) = elim (serve h e) [ none ↦ none | some g ↦ serve_all g es ]

-- The core is valid, and the files hold its log, base and hard state.
pub record IsDurable (h : Host) : Type 0 where
  pub valid : IsValid h.core
  pub sync : InSync h.storage h.core

-- From `h` to `g`: `g` is durable, and its core keeps what was committed, the term and the vote.
pub record Continues (h g : Host) : Type 0 where
  pub durable : IsDurable g
  pub lawful : Lawful h.core g.core

-- What is asked of the events: a tick comes while the term is below 2 ^ 64 - 1, the entries of a
-- message are numbered from `prev_index + 1` on and do not contradict a committed entry that the
-- log holds, and the write of a snapshot does not fail.
abbrev pub Acceptable : Host → Event → Type 0
Acceptable h on_tick = HasTermLeft h.core
Acceptable h (on_message m) = Indexed (suc m.prev_index) m.entries × Agreeing h.core m.entries
Acceptable h (on_snapshot a) = a.saving ≢ nothing
Acceptable h _ = Unit {0}

abbrev pub AcceptableRun : Host → List Event → Type 0
AcceptableRun h [] = Unit {0}
AcceptableRun h (e ∷ es) = Acceptable h e × ((g : Host) → serve h e ≡ some g → AcceptableRun g es)
