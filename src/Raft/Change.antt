-- ===== src/Raft/Change.antt =====
-- The abstract transition system behind raft.cc: the changes of the log, the commit index, the
-- hard state and the host's instructions that the code ever makes, and sequences of them.
use flotilladb.Base.{ℕ, suc, ◌+◌, ◌-◌, ◌≤◌, ◌<◌, ◌≡◌, sym, ◌∙◌}
use flotilladb.Base.{◌⊎◌, true, some, [], ◌∷◌, ◌++◌}
use flotilladb.Base.{arith}
use flotilladb.Base.{length, take, length-append, length-take}
use flotilladb.Raft.Types.{Raft, LogEntry, HardState}
use flotilladb.Raft.Follower.{below, lower_cut}
use flotilladb.Raft.Valid.{IsValid, Indexed-append, Indexed-take}

abbrev pub SameLog : Raft → Raft → Type 0
SameLog r s =
    (s.log ≡ r.log) × (s.base ≡ r.base) × (s.commit ≡ r.commit) × (s.last_emitted ≡ r.last_emitted)

abbrev pub SameHard : Raft → Raft → Type 0
SameHard r s =
    (s.hard ≡ r.hard)
    × (s.ready.hard_state_changed ≡ r.ready.hard_state_changed)
    × (s.ready.hard_state ≡ r.ready.hard_state)

abbrev pub SameDisk : Raft → Raft → Type 0
SameDisk r s =
    (s.ready.truncate_from ≡ r.ready.truncate_from)
    × (s.ready.entries_to_append ≡ r.ready.entries_to_append)
    × (s.ready.snapshot_to_apply ≡ r.ready.snapshot_to_apply)

-- How the hard state may change: to a higher term, or to a first vote in the same term.
abbrev pub Ballot : HardState → HardState → Type 0
Ballot h k = (h.term < k.term) ⊎ ((k.term ≡ h.term) × (h.voted_for ≡ 0))

pub data Change (r s : Raft) : Type 0 where
  quiet : SameLog r s → SameHard r s → SameDisk r s → Change r s
  ballot :
      SameLog r s
      → SameDisk r s
      → (s.ready.hard_state_changed ≡ true) × (s.ready.hard_state ≡ s.hard)
      → Ballot r.hard s.hard
      → Change r s
  push :
      (e : LogEntry)
      → (s.log ≡ r.log ++ e ∷ [])
        × (s.base ≡ r.base)
        × (s.commit ≡ r.commit)
        × (s.last_emitted ≡ r.last_emitted)
      → SameHard r s
      → (s.ready.truncate_from ≡ r.ready.truncate_from)
        × (s.ready.entries_to_append ≡ r.ready.entries_to_append ++ e ∷ [])
        × (s.ready.snapshot_to_apply ≡ r.ready.snapshot_to_apply)
      → e.index ≡ suc (r.base.last_index + length r.log)
      → Change r s
  cut :
      (index : ℕ)
      → (s.log ≡ take (index - r.base.last_index - 1) r.log)
        × (s.base ≡ r.base)
        × (s.commit ≡ r.commit)
        × (s.last_emitted ≡ r.last_emitted)
      → SameHard r s
      → (s.ready.truncate_from ≡ lower_cut r.ready.truncate_from index)
        × (s.ready.entries_to_append ≡ below index r.ready.entries_to_append)
        × (s.ready.snapshot_to_apply ≡ r.ready.snapshot_to_apply)
      → r.commit < index
      → Change r s
  advance :
      (s.log ≡ r.log) × (s.base ≡ r.base) × (s.last_emitted ≡ s.commit)
      → SameHard r s
      → SameDisk r s
      → r.commit ≤ s.commit
      → s.commit ≤ r.base.last_index + length r.log
      → Change r s
  replace :
      (s.log ≡ []) × (s.commit ≡ s.base.last_index) × (s.last_emitted ≡ s.base.last_index)
      → SameHard r s
      → (s.ready.truncate_from ≡ 0)
        × (s.ready.entries_to_append ≡ [])
        × (s.ready.snapshot_to_apply ≡ some s.base)
      → r.commit < s.base.last_index
      → Change r s

pub Change-IsValid : {r s : Raft} → IsValid r → Change r s → IsValid s
Change-IsValid v (quiet (hl, hb, hc, he) _ _) = record {
  indexed = rw (hl, hb) v.indexed;
  base_commit = rw (hb, hc) v.base_commit;
  commit_last = rw (hb, hc, hl) v.commit_last;
  all_emitted = rw (he, hc) v.all_emitted;
}
Change-IsValid v (ballot (hl, hb, hc, he) _ _ _) = record {
  indexed = rw (hl, hb) v.indexed;
  base_commit = rw (hb, hc) v.base_commit;
  commit_last = rw (hb, hc, hl) v.commit_last;
  all_emitted = rw (he, hc) v.all_emitted;
}
Change-IsValid {r} v (push e (hl, hb, hc, he) _ _ hi) = record {
  indexed = rw (hl, hb) (Indexed-append _ r.log e v.indexed (omega arith));
  base_commit = rw (hb, hc) v.base_commit;
  commit_last = rw (hb, hc, hl) (omega (arith, v.commit_last, length-append r.log (e ∷ [])));
  all_emitted = rw (he, hc) v.all_emitted;
}
Change-IsValid {r} v (cut index (hl, hb, hc, he) _ _ above) = record {
  indexed = rw (hl, hb) (Indexed-take _ _ r.log v.indexed);
  base_commit = rw (hb, hc) v.base_commit;
  commit_last =
      rw (hb, hc, hl)
        (omega
          (arith, v.commit_last, v.base_commit, length-take (index - r.base.last_index - 1) r.log));
  all_emitted = rw (he, hc) v.all_emitted;
}
Change-IsValid v (advance (hl, hb, he) _ _ up lim) = record {
  indexed = rw (hl, hb) v.indexed;
  base_commit = rw hb (omega (arith, v.base_commit));
  commit_last = rw (hb, hl) lim;
  all_emitted = he;
}
Change-IsValid v (replace (hl, hc, he) _ _ above) = record {
  indexed = rw hl tt;
  base_commit = rw hc (omega arith);
  commit_last = rw (hc, hl) (omega arith);
  all_emitted = he ∙ sym hc;
}

-- Sequences of changes, each from a valid state
pub data Changes (r : Raft) : Raft → Type 0 where
  here : Changes r r
  next : {s t : Raft} → Changes r s → IsValid s → Change s t → Changes r t

pub Changes-trans : {r s t : Raft} → Changes r s → Changes s t → Changes r t
Changes-trans p here = p
Changes-trans p (next q v c) = next (Changes-trans p q) v c

-- A step from a valid state: changes of the abstract system lead to the new state, which is valid.
pub record Safe (r s : Raft) : Type 0 where
  pub valid : IsValid s
  pub path : Changes r s

pub Safe-refl : {r : Raft} → IsValid r → Safe r r
Safe-refl v = record { valid = v; path = here }

pub Safe-trans : {r s t : Raft} → Safe r s → Safe s t → Safe r t
Safe-trans p q = record { valid = q.valid; path = Changes-trans p.path q.path }

pub Change-Safe : {r s : Raft} → IsValid r → Change r s → Safe r s
Change-Safe v c = record { valid = Change-IsValid v c; path = next here v c }

pub quiet-Safe : {r s : Raft} → IsValid r → SameLog r s → SameHard r s → SameDisk r s → Safe r s
quiet-Safe v a b c = Change-Safe v (quiet a b c)
