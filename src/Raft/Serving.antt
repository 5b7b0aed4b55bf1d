-- ===== src/Raft/Serving.antt =====
-- A host of server/raft_group.cc keeps its files in step with its core.
use flotilladb.Base.{ℕ, suc, ◌-◌, ◌≡◌, refl, ap, subst, ◌∙◌}
use flotilladb.Base.{inl, inr, Bool, true, false, Option, none, some, List, [], ◌∷◌}
use flotilladb.Base.{arith, leb, Bool-cases}
use flotilladb.Base.{drop}
use flotilladb.Raft.Types.{Raft}
use flotilladb.Raft.Node.{tick, propose, start_read_index, compact_to}
use flotilladb.Raft.Step.{step}
use flotilladb.Raft.Storage.{save_snapshot, skip_through, drain}
use flotilladb.Raft.Cuts.{skip_through-drop}
use flotilladb.Raft.Durable.{InSync, InSync-Tracks, Changes-Tracks, drain-InSync}
use flotilladb.Raft.Agreeing.{Succeeds-some}
use flotilladb.Base.{sym, ◌≢◌}
use flotilladb.Raft.Valid.{Indexed}
use flotilladb.Raft.Change.{Safe}
use flotilladb.Raft.Lasting.{Lawful-refl, Lawful-trans, Safe-Lawful}
use flotilladb.Raft.Steps.{SafeIf, tick-Safe, propose-Safe, start_read_index-Safe}
use flotilladb.Raft.Committed.{step_all-Safe}
use flotilladb.Raft.Run.{LawfulIf, compact_to-LawfulIf, take_ready-Lawful}
use flotilladb.Raft.Host.{
  Host, Event, on_tick, on_message, on_propose, on_read, on_snapshot, drained, saved, on_applied,
  on_restored, Saving, whole, log_left, nothing, Snapshotting, maybe_snapshot, proposed, asked,
  serve, serve_all, IsDurable, Continues, Acceptable, AcceptableRun,
}
use flotilladb.Raft.Guarded.{snapshot_cases, serve-Succeeds}

ContinuesIf : Host → Option Host → Type 0
ContinuesIf h none = Unit {0}
ContinuesIf h (some g) = Continues h g

stored_numbered :
    {h : Host} → IsDurable h → Indexed (suc h.storage.snap.last_index) h.storage.entries
stored_numbered {h} d = rw (d.sync.snap, d.sync.log) d.valid.indexed

drained-Continues :
    (h : Host) (o : Option Raft) → IsDurable h → SafeIf h.core o → ContinuesIf h (drained h o)
unfolding drained ContinuesIf drain
drained-Continues h none d s = tt
drained-Continues h (some r) d s =
    let taken = take_ready-Lawful s.valid in
    record {
      durable = record {
        valid = taken.valid;
        sync = drain-InSync (stored_numbered d) (Changes-Tracks (InSync-Tracks d.sync) s.path);
      };
      lawful = Lawful-trans (Safe-Lawful s) taken;
    }

same-Continues : {h : Host} → IsDurable h → Continues h h
same-Continues d = record { durable = d; lawful = Lawful-refl d.valid }

counted : {h : Host} → IsDurable h → (n : ℕ) → Continues h (record h { applied_since_snapshot = n })
counted d n = record {
  durable = record { valid = d.valid; sync = d.sync };
  lawful = Lawful-refl d.valid;
}

proposed-Continues :
    (h : Host) (p : Raft × Option (ℕ × ℕ))
    → IsDurable h
    → Safe h.core p.0
    → ContinuesIf h (proposed h p)
unfolding proposed
proposed-Continues h (r, none) d s = unfold ContinuesIf in same-Continues d
proposed-Continues h (r, some at) d s = drained-Continues h (some r) d s

asked-Continues :
    (h : Host) (p : Raft × Bool) → IsDurable h → Safe h.core p.0 → ContinuesIf h (asked h p)
unfolding asked
asked-Continues h (r, false) d s = unfold ContinuesIf in same-Continues d
asked-Continues h (r, true) d s = drained-Continues h (some r) d s

-- Saving the compacted snapshot cuts the files where the core cut its log.
SavedIf : Host → Option Raft → Type 0
SavedIf h none = Unit {0}
SavedIf h (some r) = InSync (save_snapshot h.storage r.base false) r

saved_entries :
    {h : Host} (last : ℕ)
    → IsDurable h
    → skip_through last h.storage.entries ≡ drop (last - h.core.base.last_index) h.core.log
saved_entries {h} last d = rw (d.sync.log) (
    skip_through-drop last (suc h.core.base.last_index) h.core.log d.valid.indexed
    ∙ ap (λ (k : ℕ). drop k h.core.log) (omega arith))

compact_to-SavedIf :
    (h : Host) (applied : ℕ) (snapshot : List ℕ)
    → IsDurable h
    → SavedIf h (compact_to h.core applied snapshot)
unfolding compact_to save_snapshot SavedIf
compact_to-SavedIf h applied snapshot d = elim (Bool-cases (leb applied h.core.base.last_index)) [
  | inl e ↦ rw e (record {
    log =
        saved_entries h.core.base.last_index d
        ∙ ap (λ (k : ℕ). drop k h.core.log)
            (let z : h.core.base.last_index - h.core.base.last_index ≡ 0 = omega arith in z);
    snap = refl;
    hard = d.sync.hard;
    calm_hard = d.sync.calm_hard;
    calm_cut = d.sync.calm_cut;
    calm_entries = d.sync.calm_entries;
    calm_snap = d.sync.calm_snap;
  })
  | inr e ↦ rw e (elim (Bool-cases (leb applied h.core.commit)) [
    | inl c ↦ rw c (record {
      log = saved_entries applied d;
      snap = refl;
      hard = d.sync.hard;
      calm_hard = d.sync.calm_hard;
      calm_cut = d.sync.calm_cut;
      calm_entries = d.sync.calm_entries;
      calm_snap = d.sync.calm_snap;
    })
    | inr c ↦ rw c tt
  ])
]

saved-Continues :
    (h : Host) (o : Option Raft) (saving : Saving)
    → saving ≢ nothing
    → SavedIf h o
    → LawfulIf h.core o
    → ContinuesIf h (saved h o saving)
unfolding saved ContinuesIf SavedIf
saved-Continues h none saving n p l = tt
saved-Continues h (some r) whole n p l = record {
  durable = record { valid = l.valid; sync = p };
  lawful = l;
}
saved-Continues h (some r) log_left n p l = record {
  durable = record { valid = l.valid; sync = p };
  lawful = l;
}
saved-Continues h (some r) nothing n p l = absurd (n refl)

maybe_snapshot-Continues :
    (h : Host) (a : Snapshotting)
    → IsDurable h
    → a.saving ≢ nothing
    → ContinuesIf h (maybe_snapshot h a)
maybe_snapshot-Continues h a d n = elim (snapshot_cases h a) [
  | inl e ↦ subst (ContinuesIf h) (sym e) (unfold ContinuesIf in (same-Continues d))
  | inr (e, _) ↦ subst (ContinuesIf h) (sym e) (
      saved-Continues h (compact_to h.core a.applied a.bytes) a.saving n
        (compact_to-SavedIf h a.applied a.bytes d) (compact_to-LawfulIf a.applied a.bytes d.valid))
]

serve-ContinuesIf :
    (h : Host) (e : Event) → IsDurable h → Acceptable h e → ContinuesIf h (serve h e)
unfolding serve
serve-ContinuesIf h on_tick d a = drained-Continues h (some (tick h.core)) d (tick-Safe d.valid a)
serve-ContinuesIf h (on_message m) d a =
    drained-Continues h (step h.core m) d (step_all-Safe m d.valid a.0)
serve-ContinuesIf h (on_propose command) d a =
    proposed-Continues h (propose h.core command) d (propose-Safe command d.valid)
serve-ContinuesIf h (on_read ctx) d a =
    asked-Continues h (start_read_index h.core ctx) d (start_read_index-Safe ctx d.valid)
serve-ContinuesIf h (on_snapshot c) d a = maybe_snapshot-Continues h c d a
serve-ContinuesIf h on_applied d a = unfold ContinuesIf in (counted d _)
serve-ContinuesIf h on_restored d a = unfold ContinuesIf in (counted d _)

serve-Continues :
    (h : Host) (e : Event)
    → IsDurable h
    → Acceptable h e
    → (g : Host) × (serve h e ≡ some g) × Continues h g
unfolding ContinuesIf
serve-Continues h e d a =
    let (g, q) = Succeeds-some (serve h e) (serve-Succeeds h e d a) in
    (g, q, subst (ContinuesIf h) q (serve-ContinuesIf h e d a))

Continues-trans : {f g h : Host} → Continues f g → Continues g h → Continues f h
Continues-trans p q = record { durable = q.durable; lawful = Lawful-trans p.lawful q.lawful }

-- From a host whose core is valid and whose files hold the core's log, base and hard state, any
-- sequence of events whose ticks come while the term is below 2 ^ 64 - 1, whose messages are
-- numbered from `prev_index + 1` on and do not contradict a committed entry that the log holds,
-- and whose writes do not fail: no assertion fails, that of `CompactTo` included, and behind the
-- sequence the core is valid and the files hold its log, base and hard state. The base and the
-- commit index do not fall, an entry that was committed and is above the new base is unchanged,
-- the term does not fall, and a vote stands as long as its term. Of the entries up to the base, and
-- of the bytes of a snapshot, nothing is said.
pub serve_all-Continues :
    (h : Host) (es : List Event)
    → IsDurable h
    → AcceptableRun h es
    → (g : Host) × (serve_all h es ≡ some g) × Continues h g
unfolding serve_all
serve_all-Continues h [] d a = (h, refl, same-Continues d)
serve_all-Continues h (e ∷ es) d a =
    let (f, q, c) = serve-Continues h e d a.0 in
    go f q c (serve_all-Continues f es c.durable (a.1 f q))
  where
    go :
        (f : Host)
        → serve h e ≡ some f
        → Continues h f
        → (g : Host) × (serve_all f es ≡ some g) × Continues f g
        → (g : Host) × (serve_all h (e ∷ es) ≡ some g) × Continues h g
    go f q c (g, r, rest) = (g, rw (serve_all, q) r, Continues-trans c rest)
