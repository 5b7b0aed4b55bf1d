-- ===== src/Raft/Durable.antt =====
-- The host's files follow the core: after each call and `DrainReady`, before any message leaves,
-- the files hold the core's log, base and hard state.
use flotilladb.Base.{ℕ, zero, suc, ◌≡◌, refl, sym, ap, ◌∙◌}
use flotilladb.Base.{inl, inr, false, Option, none, some, List, [], ◌∷◌, ◌++◌}
use flotilladb.Base.{append-nil, append_assoc, arith, if◌then◌else◌, Bool-cases}
use flotilladb.Base.{take}
use flotilladb.Raft.Types.{Raft, LogEntry, Snapshot, Ready}
use flotilladb.Raft.Node.{take_ready}
use flotilladb.Raft.Follower.{below}
use flotilladb.Raft.Storage.{
  Storage, persist, persist_snapshot, persist_cut, persist_hard, truncate_from, save_snapshot,
  append, save_hard_state, drain,
}
use flotilladb.Raft.Cuts.{pop_from-below, take-below, below-append, trimmed, below-trimmed}
use flotilladb.Raft.Valid.{Indexed, IsValid}
use flotilladb.Raft.Change.{Change, Changes, here, next, quiet, ballot, push, cut, advance, replace}

unfoldable pub kept : Storage → Option Snapshot → List LogEntry
kept st none = st.entries
kept st (some snap) = []

unfoldable pub newest : Storage → Option Snapshot → Snapshot
newest st none = st.snap
newest st (some snap) = snap

-- What the files will hold once the pending `Ready` is persisted is what the core holds.
pub record Tracks (st : Storage) (r : Raft) : Type 0 where
  pub log :
      trimmed r.ready.truncate_from (kept st r.ready.snapshot_to_apply) ++ r.ready.entries_to_append
      ≡ r.log
  pub snap : newest st r.ready.snapshot_to_apply ≡ r.base
  pub hard : (if r.ready.hard_state_changed then r.ready.hard_state else st.hard) ≡ r.hard

Change-Tracks : {st : Storage} {r s : Raft} → IsValid r → Tracks st r → Change r s → Tracks st s
unfolding kept newest
Change-Tracks v t (quiet (hl, hb, _, _) (hh, hx, hy) (ht, ha, hs)) = record {
  log = rw (ht, ha, hs, hl) t.log;
  snap = rw (hs, hb) t.snap;
  hard = rw (hx, hy, hh) t.hard;
}
Change-Tracks v t (ballot (hl, hb, _, _) (ht, ha, hs) (hx, hy) _) = record {
  log = rw (ht, ha, hs, hl) t.log;
  snap = rw (hs, hb) t.snap;
  hard = rw hx hy;
}
Change-Tracks {r = r} v t (push e (hl, hb, _, _) (hh, hx, hy) (ht, ha, hs) _) = record {
  log =
      rw (ht, ha, hs, hl)
        (sym (append_assoc _ r.ready.entries_to_append (e ∷ [])) ∙ ap (λ xs. xs ++ e ∷ []) t.log);
  snap = rw (hs, hb) t.snap;
  hard = rw (hx, hy, hh) t.hard;
}
Change-Tracks {st} {r} v t (cut index (hl, hb, _, _) (hh, hx, hy) (ht, ha, hs) above) = record {
  log =
      rw (ht, ha, hs, hl)
        (ap (λ xs. xs ++ below index r.ready.entries_to_append)
            (sym (
              below-trimmed r.ready.truncate_from index (kept st r.ready.snapshot_to_apply)
                (omega arith)))
          ∙ sym (below-append index _ r.ready.entries_to_append)
          ∙ ap (below index) t.log
          ∙ sym (take-below index (suc r.base.last_index) r.log v.indexed)
          ∙ ap (λ (k : ℕ). take k r.log) (omega arith));
  snap = rw (hs, hb) t.snap;
  hard = rw (hx, hy, hh) t.hard;
}
Change-Tracks v t (advance (hl, hb, _) (hh, hx, hy) (ht, ha, hs) _ _) = record {
  log = rw (ht, ha, hs, hl) t.log;
  snap = rw (hs, hb) t.snap;
  hard = rw (hx, hy, hh) t.hard;
}
Change-Tracks v t (replace (hl, _, _) (hh, hx, hy) (ht, ha, hs) _) = record {
  log = rw (ht, ha, hs, hl) (unfold trimmed in refl);
  snap = rw hs refl;
  hard = rw (hx, hy, hh) t.hard;
}

pub Changes-Tracks : {st : Storage} {r s : Raft} → Tracks st r → Changes r s → Tracks st s
Changes-Tracks t here = t
Changes-Tracks t (next p v c) = Change-Tracks v (Changes-Tracks t p) c

-- Nothing is pending for the files, and they hold what the core holds.
pub record InSync (st : Storage) (r : Raft) : Type 0 where
  pub log : st.entries ≡ r.log
  pub snap : st.snap ≡ r.base
  pub hard : st.hard ≡ r.hard
  pub calm_hard : r.ready.hard_state_changed ≡ false
  pub calm_cut : r.ready.truncate_from ≡ 0
  pub calm_entries : r.ready.entries_to_append ≡ []
  pub calm_snap : r.ready.snapshot_to_apply ≡ none

pub InSync-Tracks : {st : Storage} {r : Raft} → InSync st r → Tracks st r
unfolding kept newest trimmed
InSync-Tracks {st} h = record {
  log = rw (h.calm_cut, h.calm_entries, h.calm_snap) (append-nil st.entries ∙ h.log);
  snap = rw h.calm_snap h.snap;
  hard = rw h.calm_hard h.hard;
}

cut-trimmed :
    (st : Storage) (t i : ℕ)
    → Indexed i st.entries
    → (persist_cut st t).entries ≡ trimmed t st.entries
unfolding persist_cut trimmed truncate_from
cut-trimmed st zero i h = refl
cut-trimmed st (suc t) i h = pop_from-below (suc t) i st.entries h

cut-frame :
    (st : Storage) (t : ℕ)
    → ((persist_cut st t).snap ≡ st.snap) × ((persist_cut st t).hard ≡ st.hard)
unfolding persist_cut truncate_from
cut-frame st zero = (refl, refl)
cut-frame st (suc t) = (refl, refl)

snapshot-entries :
    (st : Storage) (so : Option Snapshot)
    → Indexed (suc st.snap.last_index) st.entries
    → (i : ℕ) × Indexed i (persist_snapshot st so).entries
      × ((persist_snapshot st so).entries ≡ kept st so)
      × ((persist_snapshot st so).snap ≡ newest st so)
      × ((persist_snapshot st so).hard ≡ st.hard)
unfolding persist_snapshot save_snapshot kept newest
snapshot-entries st none h = (suc st.snap.last_index, h, refl, refl, refl)
snapshot-entries st (some snap) h = (0, tt, refl, refl, refl)

-- `Persist` in closed form
persist_lem :
    (st : Storage) (ready : Ready)
    → Indexed (suc st.snap.last_index) st.entries
    → ((persist st ready).entries
        ≡ trimmed ready.truncate_from (kept st ready.snapshot_to_apply) ++ ready.entries_to_append)
      × ((persist st ready).snap ≡ newest st ready.snapshot_to_apply)
      × ((persist st ready).hard ≡ (if ready.hard_state_changed then ready.hard_state else st.hard))
unfolding persist persist_hard append save_hard_state
persist_lem st ready h =
    let (i, hi, he, hs, hh) = snapshot-entries st ready.snapshot_to_apply h in
    let cut = cut-trimmed (persist_snapshot st ready.snapshot_to_apply) ready.truncate_from i hi in
    let frame = cut-frame (persist_snapshot st ready.snapshot_to_apply) ready.truncate_from in
    let entries =
      ap (λ xs. xs ++ ready.entries_to_append) (cut ∙ ap (trimmed ready.truncate_from) he) in
    elim (Bool-cases ready.hard_state_changed) [
      | inl e ↦ rw e (entries, frame.0 ∙ hs, refl)
      | inr e ↦ rw e (entries, frame.0 ∙ hs, frame.1 ∙ hh)
    ]

-- Once the `Ready` is persisted the files hold the core's log, base and hard state.
pub drain-InSync :
    {st : Storage} {r : Raft}
    → Indexed (suc st.snap.last_index) st.entries
    → Tracks st r
    → InSync (drain st r).0 (drain st r).1
unfolding drain take_ready
drain-InSync {st} {r} h t =
    let (pe, ps, ph) = persist_lem st r.ready h in
    record {
      log = pe ∙ t.log;
      snap = ps ∙ t.snap;
      hard = ph ∙ t.hard;
      calm_hard = refl;
      calm_cut = refl;
      calm_entries = refl;
      calm_snap = refl;
    }
