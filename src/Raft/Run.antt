-- ===== src/Raft/Run.antt =====
-- A whole life of a Raft core: any sequence of calls of its host after the constructor.
use flotilladb.Base.{ℕ, suc, ◌+◌, ◌≤◌, ◌≡◌, refl, subst}
use flotilladb.Base.{inl, inr, true, Option, none, some, List, [], ◌∷◌}
use flotilladb.Base.{arith, leb, leb→le, Bool-cases}
use flotilladb.Raft.Types.{Raft, LogEntry, Message, HardState, Snapshot, Config}
use flotilladb.Raft.Log.{entry_at}
use flotilladb.Raft.Core.{reset_election_timer}
use flotilladb.Raft.Node.{tick, propose, start_read_index, compact_to, take_ready, numbered, create}
use flotilladb.Raft.Step.{step}
use flotilladb.Raft.Agreeing.{Agreeing, Succeeds, Succeeds-some}
use flotilladb.Raft.Total.{step-Succeeds, compact_to-Succeeds}
use flotilladb.Raft.Valid.{Indexed, IsValid}
use flotilladb.Raft.Lasting.{
  Lawful, Lawful-refl, Lawful-trans, Safe-Lawful, compact-Lawful, Faithful-refl,
}
use flotilladb.Raft.Steps.{SafeIf, HasTermLeft, tick-Safe, propose-Safe, start_read_index-Safe}
use flotilladb.Raft.Committed.{step_all-Safe}

-- The public calls of class Raft that change its state
pub data Call : Type 0 where
  ticks : Call
  receives : Message → Call
  proposes : List ℕ → Call
  reads : ℕ → Call
  compacts : ℕ → List ℕ → Call
  takes : Call

unfoldable pub perform : Raft → Call → Option Raft
perform r ticks = some (tick r)
perform r (receives m) = step r m
perform r (proposes command) = some (propose r command).0
perform r (reads ctx) = some (start_read_index r ctx).0
perform r (compacts index snapshot) = compact_to r index snapshot
perform r takes = some (take_ready r).1

-- `none`: an assertion failed on the way.
unfoldable pub run : Raft → List Call → Option Raft
run r [] = some r
run r (c ∷ cs) = elim (perform r c) [ none ↦ none | some s ↦ run s cs ]

-- The effect of a call that is lawful, or a failed assertion
abbrev pub LawfulIf : Raft → Option Raft → Type 0
LawfulIf r none = Unit {0}
LawfulIf r (some s) = Lawful r s

SafeIf-LawfulIf : (r : Raft) (o : Option Raft) → SafeIf r o → LawfulIf r o
SafeIf-LawfulIf r none h = tt
SafeIf-LawfulIf r (some s) h = Safe-Lawful h

-- What the host may call: the entries of a message are numbered from `prev_index + 1` on and do not
-- contradict a committed entry that the log holds, the term has not reached 2 ^ 64 - 1 when a tick
-- may start an election, and the log is compacted up to the commit index at most.
abbrev pub Admissible : Raft → Call → Type 0
Admissible r (receives m) = Indexed (suc m.prev_index) m.entries × Agreeing r m.entries
Admissible r ticks = HasTermLeft r
Admissible r (compacts index snapshot) = index ≤ r.commit
Admissible r _ = Unit {0}

-- Each call is admissible in the state in which it is made.
abbrev pub AdmissibleRun : Raft → List Call → Type 0
AdmissibleRun r [] = Unit {0}
AdmissibleRun r (c ∷ cs) = Admissible r c × ((s : Raft) → perform r c ≡ some s → AdmissibleRun s cs)

pub compact_to-LawfulIf :
    {r : Raft} (index : ℕ) (snapshot : List ℕ)
    → IsValid r
    → LawfulIf r (compact_to r index snapshot)
unfolding compact_to
compact_to-LawfulIf {r} index snapshot v = elim (Bool-cases (leb index r.base.last_index)) [
  | inl e ↦ rw e (Lawful-refl v)
  | inr e ↦ rw e (elim (Bool-cases (leb index r.commit)) [
    | inl d ↦ rw d (compact-Lawful v (ground arith) (leb→le index r.commit d) refl refl refl refl)
    | inr d ↦ rw d tt
  ])
]

pub take_ready-Lawful : {r : Raft} → IsValid r → Lawful r (take_ready r).1
unfolding take_ready entry_at
take_ready-Lawful v = record {
  valid = record {
    indexed = v.indexed;
    base_commit = v.base_commit;
    commit_last = v.commit_last;
    all_emitted = v.all_emitted;
  };
  extends = record { base_grows = omega arith; commit_grows = omega arith; keeps = λ i h k. refl };
  faithful = Faithful-refl refl;
}

perform-LawfulIf : {r : Raft} (c : Call) → IsValid r → Admissible r c → LawfulIf r (perform r c)
unfolding perform
perform-LawfulIf ticks v h = Safe-Lawful (tick-Safe v h)
perform-LawfulIf {r} (receives m) v h = SafeIf-LawfulIf r (step r m) (step_all-Safe m v h.0)
perform-LawfulIf (proposes command) v h = Safe-Lawful (propose-Safe command v)
perform-LawfulIf (reads ctx) v h = Safe-Lawful (start_read_index-Safe ctx v)
perform-LawfulIf (compacts index snapshot) v h = compact_to-LawfulIf index snapshot v
perform-LawfulIf takes v h = take_ready-Lawful v

perform-Succeeds : {r : Raft} (c : Call) → IsValid r → Admissible r c → Succeeds (perform r c)
unfolding perform
perform-Succeeds ticks v h = tt
perform-Succeeds (receives m) v h = step-Succeeds m v h.0 h.1
perform-Succeeds (proposes command) v h = tt
perform-Succeeds (reads ctx) v h = tt
perform-Succeeds {r} (compacts index snapshot) v h = compact_to-Succeeds r index snapshot h
perform-Succeeds takes v h = tt

perform-Lawful :
    {r : Raft} (c : Call)
    → IsValid r
    → Admissible r c
    → (t : Raft) × (perform r c ≡ some t) × Lawful r t
perform-Lawful {r} c v h =
    let (t, e) = Succeeds-some (perform r c) (perform-Succeeds c v h) in
    (t, e, subst (LawfulIf r) e (perform-LawfulIf c v h))

-- From a valid state, any sequence of calls whose messages are numbered from `prev_index + 1` on
-- and do not contradict a committed entry that the log holds, whose ticks come while the term is
-- below 2 ^ 64 - 1, and which compact the log up to the commit index at most: no assertion fails,
-- and the state behind it is valid, that is, the log is numbered without a gap from the base on,
-- the commit index lies within it and everything committed was emitted. Neither the base nor the
-- commit index falls, an entry that was committed and is above the new base is unchanged, the term
-- does not fall, and a vote stands as long as its term.
pub run-Lawful :
    (r : Raft) (cs : List Call)
    → IsValid r
    → AdmissibleRun r cs
    → (s : Raft) × (run r cs ≡ some s) × Lawful r s
unfolding run
run-Lawful r [] v h = (r, refl, Lawful-refl v)
run-Lawful r (c ∷ cs) v h =
    let (t, e, l) = perform-Lawful c v h.0 in go t e l (run-Lawful t cs l.valid (h.1 t e))
  where
    go :
        (t : Raft)
        → perform r c ≡ some t
        → Lawful r t
        → (s : Raft) × (run t cs ≡ some s) × Lawful t s
        → (s : Raft) × (run r (c ∷ cs) ≡ some s) × Lawful r s
    go t e l (s, f, rest) = (s, rw (run, e) f, Lawful-trans l rest)

pub numbered-Indexed : (i : ℕ) (es : List LogEntry) → numbered i es ≡ true → Indexed i es
unfolding numbered
numbered-Indexed i [] h = tt
numbered-Indexed i (e ∷ es) h = ground (arith, numbered-Indexed (i + 1) es)

IsValidIf : Option Raft → Type 0
IsValidIf none = Unit {0}
IsValidIf (some r) = IsValid r

-- The constructor builds a valid state, or its assertion fails.
pub create-IsValid :
    (config : Config) (hs : HardState) (log : List LogEntry) (base : Snapshot) (r : Raft)
    → create config hs log base ≡ some r
    → IsValid r
unfolding create reset_election_timer IsValidIf
create-IsValid config hs log base r e = elim (Bool-cases (numbered (base.last_index + 1) log)) [
  | inl d ↦ subst IsValidIf (rw d at e) (record {
    indexed = subst (λ (i : ℕ). Indexed i log) (omega arith) (numbered-Indexed _ log d);
    base_commit = omega arith;
    commit_last = omega arith;
    all_emitted = refl;
  })
  | inr d ↦ cc (rw d at e)
]
