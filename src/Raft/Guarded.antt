-- ===== src/Raft/Guarded.antt =====
-- No assertion of raft.cc fails in a host of server/raft_group.cc.
use flotilladb.Base.{ℕ, ◌≡◌, refl, subst}
use flotilladb.Base.{inl, inr, Bool, true, false, Option, none, some}
use flotilladb.Base.{arith, ltb, Bool-cases}
use flotilladb.Raft.Types.{Raft}
use flotilladb.Raft.Node.{tick, propose, start_read_index, compact_to}
use flotilladb.Raft.Step.{step}
use flotilladb.Raft.Agreeing.{Succeeds}
use flotilladb.Raft.Total.{step-Succeeds, compact_to-Succeeds}
use flotilladb.Base.{sym, ◌≤◌, ◌⊎◌, ◌||◌, ◌==◌}
use flotilladb.Raft.Host.{
  Host, Event, on_tick, on_message, on_propose, on_read, on_snapshot, drained, saved, on_applied,
  on_restored, Saving, whole, log_left, nothing, Snapshotting, maybe_snapshot, proposed, asked,
  serve, IsDurable, Acceptable,
}

-- Where `MaybeSnapshot` does not return early, `applied` is not above the commit index.
pub snapshot_cases :
    (h : Host) (a : Snapshotting)
    → (maybe_snapshot h a ≡ some h)
      ⊎ ((maybe_snapshot h a ≡ saved h (compact_to h.core a.applied a.bytes) a.saving)
          × (a.applied ≤ h.core.commit))
unfolding maybe_snapshot
snapshot_cases h a = elim (Bool-cases (a.interval == 0)) [
  | inl e ↦ inl (rw e refl)
  | inr e ↦ elim (Bool-cases (ltb h.applied_since_snapshot a.interval)) [
    | inl f ↦ inl (rw (e, f) refl)
    | inr f ↦ elim (Bool-cases (a.stopping || ltb h.core.commit a.applied)) [
      | inl g ↦ inl (rw (e, f, g) refl)
      | inr g ↦ inr (rw (e, f, g) refl, ground arith)
    ]
  ]
]

-- The guard of `MaybeSnapshot` keeps the assertion of `CompactTo` from failing.
pub maybe_snapshot-Succeeds : (h : Host) (a : Snapshotting) → Succeeds (maybe_snapshot h a)
maybe_snapshot-Succeeds h a = elim (snapshot_cases h a) [
  | inl e ↦ subst Succeeds (sym e) tt
  | inr (e, low) ↦ subst Succeeds (sym e) (
      go (compact_to h.core a.applied a.bytes) a.saving
        (compact_to-Succeeds h.core a.applied a.bytes low))
]
  where
    go : (o : Option Raft) (saving : Saving) → Succeeds o → Succeeds (saved h o saving)
    go none saving k = absurd k
    go (some r) whole k = unfold saved in tt
    go (some r) log_left k = unfold saved in tt
    go (some r) nothing k = unfold saved in tt

drained-Succeeds : (h : Host) (o : Option Raft) → Succeeds o → Succeeds (drained h o)
unfolding drained
drained-Succeeds h none k = absurd k
drained-Succeeds h (some r) k = tt

proposed-Succeeds : (h : Host) (p : Raft × Option (ℕ × ℕ)) → Succeeds (proposed h p)
unfolding proposed drained
proposed-Succeeds h (r, none) = tt
proposed-Succeeds h (r, some at) = tt

asked-Succeeds : (h : Host) (p : Raft × Bool) → Succeeds (asked h p)
unfolding asked drained
asked-Succeeds h (r, false) = tt
asked-Succeeds h (r, true) = tt

pub serve-Succeeds : (h : Host) (e : Event) → IsDurable h → Acceptable h e → Succeeds (serve h e)
unfolding serve
serve-Succeeds h on_tick d a = drained-Succeeds h (some (tick h.core)) tt
serve-Succeeds h (on_message m) d a =
    drained-Succeeds h (step h.core m) (step-Succeeds m d.valid a.0 a.1)
serve-Succeeds h (on_propose command) d a = proposed-Succeeds h (propose h.core command)
serve-Succeeds h (on_read ctx) d a = asked-Succeeds h (start_read_index h.core ctx)
serve-Succeeds h (on_snapshot c) d a = maybe_snapshot-Succeeds h c
serve-Succeeds h on_applied d a = tt
serve-Succeeds h on_restored d a = tt
