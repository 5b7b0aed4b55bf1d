-- ===== src/Raft/Restart.antt =====
-- A restart: the constructor on what the files hold.
use flotilladb.Base.{ℕ, suc, ◌+◌, ◌≤◌, ◌≡◌, refl, subst}
use flotilladb.Base.{true, some, List, [], ◌∷◌}
use flotilladb.Base.{arith, ◌==◌, ==_iff}
use flotilladb.Raft.Types.{Raft, LogEntry, Config}
use flotilladb.Raft.Core.{reset_election_timer}
use flotilladb.Raft.Node.{numbered, create, initial}
use flotilladb.Raft.Valid.{Indexed, IsValid}
use flotilladb.Raft.Run.{create-IsValid}
use flotilladb.Base.{◌<◌, ap, ◌∙◌, inl, inr}
use flotilladb.Raft.Types.{Snapshot}
use flotilladb.Raft.Log.{entry_at}
use flotilladb.Raft.Node.{compact_to}
use flotilladb.Raft.Storage.{Storage}
use flotilladb.Raft.Lasting.{Faithful, Faithful-refl, Faithful-trans, Lawful}
use flotilladb.Raft.Agreeing.{Succeeds-some}
use flotilladb.Raft.Total.{compact_to-Succeeds}
use flotilladb.Raft.Host.{
  Host, Event, Snapshotting, nothing, IsDurable, AcceptableRun, saved, maybe_snapshot, serve_all,
}
use flotilladb.Raft.Serving.{serve_all-Continues}
use flotilladb.Raft.Guarded.{snapshot_cases}

Indexed-numbered : (i : ℕ) (es : List LogEntry) → Indexed (suc i) es → numbered (i + 1) es ≡ true
unfolding numbered
Indexed-numbered i [] h = refl
Indexed-numbered i (e ∷ es) h =
    let head : (e.index == i + 1) ≡ true = (==_iff _ _).1 (omega arith) in
    rw (head, Indexed-numbered (i + 1) es (subst (λ (k : ℕ). Indexed (suc k) es) (omega arith) h.1))
      refl

-- What a restarted core has in common with the one before
pub record Resumes (config : Config) (before after : Raft) : Type 0 where
  pub config_given : after.config ≡ config
  pub hard : after.hard ≡ before.hard
  pub log : after.log ≡ before.log
  pub base : after.base ≡ before.base
  pub behind : after.commit ≤ before.commit
  pub valid : IsValid after

restart :
    (config : Config) (h : Host)
    → IsDurable h
    → (r : Raft) × (create config h.storage.hard h.storage.entries h.storage.snap ≡ some r)
      × Resumes config h.core r
restart config h d =
    let st = h.storage in
    let whole : numbered (st.snap.last_index + 1) st.entries ≡ true =
      Indexed-numbered st.snap.last_index st.entries
        (rw (d.sync.snap, d.sync.log) d.valid.indexed) in
    let built : create config st.hard st.entries st.snap
        ≡ some (reset_election_timer (initial config st.hard st.entries st.snap)) =
      unfold create in (rw whole refl) in
    (
      reset_election_timer (initial config st.hard st.entries st.snap),
      built,
      unfold reset_election_timer initial in
          (record {
            config_given = refl;
            hard = d.sync.hard;
            log = d.sync.log;
            base = d.sync.snap;
            behind = rw (d.sync.snap) d.valid.base_commit;
            valid =
                unfold reset_election_timer initial in
                create-IsValid config st.hard st.entries st.snap _ built;
          }),
    )

-- What of `before` is there again after the restart
pub record Survives (before after : Raft) : Type 0 where
  pub base_grows : before.base.last_index ≤ after.base.last_index
  pub keeps :
      (i : ℕ) → after.base.last_index < i → i ≤ before.commit → entry_at after i ≡ entry_at before i
  pub faithful : Faithful before.hard after.hard

Resumes-Survives : (config : Config) (a b c : Raft) → Lawful a b → Resumes config b c → Survives a c
unfolding entry_at
Resumes-Survives config a b c l s =
    let at : c.base.last_index ≡ b.base.last_index = ap (λ (x : Snapshot). x.last_index) s.base in
    record {
      base_grows = omega (arith, at, l.extends.base_grows);
      keeps = λ i above low. rw (s.log, s.base) (l.extends.keeps i (omega (arith, at)) low);
      faithful = Faithful-trans l.faithful (Faithful-refl s.hard);
    }

-- A save that fails leaves the files as they are, whatever it has compacted.
failed_storage :
    (g : Host) (a : Snapshotting)
    → a.saving ≡ nothing
    → (k : Host) × (maybe_snapshot g a ≡ some k) × (k.storage ≡ g.storage)
failed_storage g a e = elim (snapshot_cases g a) [
  | inl p ↦ (g, p, refl)
  | inr (p, low) ↦
      let (r, q) =
        Succeeds-some (compact_to g.core a.applied a.bytes)
          (compact_to-Succeeds g.core a.applied a.bytes low) in
      (
        record g { core = r },
        p
            ∙ ap (saved g (compact_to g.core a.applied a.bytes)) e
            ∙ ap (λ o. saved g o nothing) q
            ∙ (unfold saved in refl),
        refl,
      )
]

-- A crash behind any sequence of events as in `serve_all-Continues`, and behind a `MaybeSnapshot`
-- whose save then fails or is not reached: the constructor succeeds on what the files hold. The
-- new core is valid and has the term, the vote, the log and the snapshot of the last core before
-- that `MaybeSnapshot`, and a commit index not above its. So each entry that the first core of the
-- sequence had committed and that is above the new base is there again, the term has not fallen
-- and a vote stands as long as its term.
pub restart-serve_all :
    (config : Config) (h : Host) (es : List Event) (a : Snapshotting)
    → IsDurable h
    → AcceptableRun h es
    → a.saving ≡ nothing
    → (g : Host) × (k : Host) × (r : Raft) × (serve_all h es ≡ some g)
      × (maybe_snapshot g a ≡ some k)
      × (create config k.storage.hard k.storage.entries k.storage.snap ≡ some r)
      × Resumes config g.core r
      × Survives h.core r
restart-serve_all config h es a d run fails =
    let (g, e, c) = serve_all-Continues h es d run in
    let (k, m, same) = failed_storage g a fails in
    let (r, built, back) = restart config g c.durable in
    (
      g,
      k,
      r,
      e,
      m,
      ap (λ (st : Storage). create config st.hard st.entries st.snap) same ∙ built,
      back,
      Resumes-Survives config h.core g.core r c.lawful back,
    )
