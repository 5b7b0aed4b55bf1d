-- ===== src/Raft/Valid.antt =====
-- What every state of a Raft core satisfies.
use flotilladb.Base.{ℕ, zero, suc, ◌+◌, ◌≤◌, ◌≡◌, subst}
use flotilladb.Base.{List, [], ◌∷◌, ◌++◌}
use flotilladb.Base.{arith}
use flotilladb.Base.{length, take, drop}
use flotilladb.Raft.Types.{Raft, LogEntry}

-- The entries are numbered consecutively from `i` on.
abbrev pub Indexed : ℕ → List LogEntry → Type 0
Indexed i [] = Unit {0}
Indexed i (e ∷ es) = (e.index ≡ i) × Indexed (suc i) es

-- The log is numbered from the base on, the commit index lies within it, and every committed
-- entry was emitted.
pub record IsValid (r : Raft) : Type 0 where
  pub indexed : Indexed (suc r.base.last_index) r.log
  pub base_commit : r.base.last_index ≤ r.commit
  pub commit_last : r.commit ≤ r.base.last_index + length r.log
  pub all_emitted : r.last_emitted ≡ r.commit

pub Indexed-append :
    (i : ℕ) (es : List LogEntry) (e : LogEntry)
    → Indexed i es
    → e.index ≡ i + length es
    → Indexed i (es ++ e ∷ [])
Indexed-append i [] e h k = omega arith
Indexed-append i (x ∷ es) e h k = (h.0, Indexed-append (suc i) es e h.1 (omega arith))

pub Indexed-take : (k i : ℕ) (es : List LogEntry) → Indexed i es → Indexed i (take k es)
Indexed-take zero i es h = tt
Indexed-take (suc k) i [] h = tt
Indexed-take (suc k) i (e ∷ es) h = (h.0, Indexed-take k (suc i) es h.1)

pub Indexed-drop :
    (k i j : ℕ) (es : List LogEntry) → j ≡ i + k → Indexed i es → Indexed j (drop k es)
Indexed-drop zero i j es p h = subst (λ (n : ℕ). Indexed n es) (omega arith) h
Indexed-drop (suc k) i j [] p h = tt
Indexed-drop (suc k) i j (e ∷ es) p h = Indexed-drop k (suc i) j es (omega arith) h.1
