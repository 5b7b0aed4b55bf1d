-- ===== src/Txn/Final.antt =====
-- The outcome of a transaction on a key, in txn/txn_ops.cc, stands in every later store.
use flotilladb.Base.{ℕ, ◌^◌, ◌≤◌, ◌<◌, ◌≡◌, refl, sym, ap, subst, ◌∙◌}
use flotilladb.Base.{◌≢◌, inl, inr, true, false, none, some, List}
use flotilladb.Base.{arith, ◌==◌, Bool-cases}
use flotilladb.Base.{All}
use flotilladb.Status.{done}
use flotilladb.Store.{Contents, find, insert, remove}
use flotilladb.Store.Laws.{insert-IsSorted, find-remove_self}
use flotilladb.Txn.Codec.{LockRecord, lock_key, write_key, encode_write}
use flotilladb.Txn.Ops.{
  Outcome, match_outcome, get_lock, history_verdict, consult_history, finish_commit, apply_prewrite,
  apply_commit, apply_rollback,
}
use flotilladb.Txn.History.{versions}
use flotilladb.Txn.History.Walk.{fold_until}
use flotilladb.Txn.History.Update.{insert_version, versions-remove_foreign}
use flotilladb.Txn.Keys.{lock_key-IsForeign}
use flotilladb.Txn.Locks.{get_lock-none}
use flotilladb.Txn.Prewrite.{apply_prewrite-Free}
use flotilladb.Txn.Commit.{commit_record, apply_commit-IsStore}
use flotilladb.Txn.Marker.{marker_of}
use flotilladb.Txn.Rollback.{apply_rollback_cases, apply_rollback-IsStore}
use flotilladb.Base.{Option-cases, [], ◌∷◌}
use flotilladb.Txn.Codec.{WriteRecord}
use flotilladb.Txn.History.{Version}
use flotilladb.Txn.Locks.{get_lock-some}
use flotilladb.Txn.Run.{Run, Run-IsStore}
use flotilladb.Txn.Slots.{Kept, Kept-own, Kept-other, OwnedRun, Over}
use flotilladb.Txn.Standing.{Run-Over, commit-IsVersion}
use flotilladb.Txn.Searches.{Free, match_outcome_sound, versions-Descends}
use flotilladb.Txn.Searches.{Foreign, Marked, Marked-Free}
use flotilladb.Txn.Valid.{IsVersion, IsStore, All-insert_version}
use flotilladb.Txn.Writes.{put_write_history}
use flotilladb.Txn.Refused.{outcome_lem, no_commit, rolled_back-Marked, rolled_back_unlocked}

abbrev IsMarkerOf : ℕ → WriteRecord → Type 0
IsMarkerOf s r = (r.kind ≡ 3) × (r.start_ts ≡ s)

abbrev IsCommitOf : ℕ → WriteRecord → Type 0
IsCommitOf s r = (r.kind ≢ 3) × (r.start_ts ≡ s)

Marked-Kept : (s : ℕ) (h : List Version) → All IsVersion h → Marked s h → Kept (IsMarkerOf s) s h
Marked-Kept s [] f m = absurd m
Marked-Kept s ((c, r) ∷ h) f (inl (k, e)) = inl (omega (arith, f.0.marker k, e), (k, e))
Marked-Kept s (v ∷ h) f (inr m) = inr (Marked-Kept s h f.1 m)

Kept-Marked : (s : ℕ) (h : List Version) → Kept (IsMarkerOf s) s h → Marked s h
Kept-Marked s [] k = absurd k
Kept-Marked s (v ∷ h) (inl x) = inl x.1
Kept-Marked s (v ∷ h) (inr k) = inr (Kept-Marked s h k)

committed_blocks :
    (s c : ℕ) (h : List Version) → All IsVersion h → Kept (IsCommitOf s) c h → All (Free s) h → ⊥
committed_blocks s c [] f k a = k
committed_blocks s c ((d, r) ∷ h) f (inl (e, (n, q))) a =
    absurd (omega (arith, a.0.0 n, f.0.started, q))
committed_blocks s c (v ∷ h) f (inr k) a = committed_blocks s c h f.1 k a.1

committed_found : (s c : ℕ) (h : List Version) → Kept (IsCommitOf s) c h → All (Foreign s) h → ⊥
committed_found s c [] k a = k
committed_found s c (v ∷ h) (inl (e, (n, q))) a = a.0 n q
committed_found s c (v ∷ h) (inr k) a = committed_found s c h k a.1

-- The marker stands, and no commit of the transaction.
abbrev RolledBack : ℕ → List Version → Type 0
RolledBack s h = Kept (IsMarkerOf s) s h × All (Foreign s) h

-- A transaction that was rolled back on a key neither prewrites nor commits it in any later store,
-- as long as no other transaction writes in the slot of its start.
pub rollback_final :
    (db db' later : Contents) (u : List ℕ) (s : ℕ)
    → IsStore db
    → 1 ≤ s
    → s < 2 ^ 64
    → apply_rollback db u s ≡ done db'
    → (r : Run 0 db' later) → OwnedRun s s r
    → (value : List ℕ) (op commit_ts : ℕ) (primary : List ℕ) (wall_ms : ℕ) (c : Contents)
    → (apply_prewrite later u value op s primary wall_ms ≢ done c)
      × (apply_commit later u s commit_ts ≢ done c)
rollback_final db db' later u s v pos bound h r own value op commit_ts primary wall_ms c =
    let after = apply_rollback-IsStore db db' u s v pos bound h in
    let end = Run-IsStore after r in
    let now = rolled_back-Marked db db' u s v pos bound h in
    let over =
      Run-Over (RolledBack s) s s u (λ x f k a. Marked-Free s x (Kept-Marked s x k.0) a)
        (λ x k a. (
          Kept-own (IsMarkerOf s) s (marker_of s) x (refl, refl),
          All-insert_version (Foreign s) (s, marker_of s) x (λ n. absurd (n refl)) a,
        ))
        (λ d rec x n m k. (
          Kept-other (IsMarkerOf s) s d rec x n k.0,
          All-insert_version (Foreign s) (d, rec) x (λ _. m) k.1,
        ))
        r after own
        (record {
          kept = (Marked-Kept s (versions db' u) (after.keys u).fit now.0, now.1);
          unlocked = rolled_back_unlocked db db' u s v pos bound h;
        }) in
    (
      (λ e.
          Marked-Free s (versions later u) (Kept-Marked s _ over.kept.0)
            (apply_prewrite-Free later c u value op s primary wall_ms end e)),
      no_commit later c u s commit_ts end over.unlocked over.kept.1,
    )

verdict_done : (db : Contents) (o : Outcome) → o.0 ≢ 0 → history_verdict db o ≡ done db
unfolding history_verdict
verdict_done db (t, b) n = ground arith

-- Another commit of a transaction whose commit the history has changes nothing.
commit_again :
    (db : Contents) (u : List ℕ) (s again : ℕ)
    → IsStore db
    → ((l : LockRecord) → get_lock db u ≡ done (some l) → l.start_ts ≢ s)
    → (fold_until (match_outcome s) (0, false) (versions db u)).0 ≢ 0
    → apply_commit db u s again ≡ done db
unfolding apply_commit finish_commit consult_history
commit_again db u s again v free n = elim (Option-cases (find db (lock_key u))) [
  | inl e ↦ rw (get_lock-none db u e, outcome_lem db u s v) (verdict_done db _ n)
  | inr (raw, e) ↦
      let k = (v.keys u).locks raw e in
      let read = get_lock-some db u raw e k in
      let other : (k.lock.start_ts == s) ≡ false = elim (Bool-cases (k.lock.start_ts == s)) [
        | inl q ↦ absurd (free k.lock read (ground arith))
        | inr q ↦ q
      ] in
      rw (read, other, finish_commit, consult_history, outcome_lem db u s v) (verdict_done db _ n)
]

-- The state of the key directly behind a commit
committed_Over :
    (db db' : Contents) (u : List ℕ) (s commit_ts : ℕ) (lock : LockRecord)
    → IsStore db
    → s ≤ commit_ts
    → commit_ts < 2 ^ 64
    → get_lock db u ≡ done (some lock)
    → lock.start_ts ≡ s
    → apply_commit db u s commit_ts ≡ done db'
    → Over (Kept (IsCommitOf s) commit_ts) s u db'
unfolding apply_commit finish_commit
committed_Over db db' u s commit_ts lock v late bound g own h =
    let q : (lock.start_ts == s) ≡ true = ground arith in
    let rec = commit_record lock.op s in
    let put = insert db (write_key u commit_ts) (encode_write rec) in
    let finished : finish_commit db u s commit_ts (some lock) ≡ done db' = rw g at h in
    let same : remove put (lock_key u) ≡ db' = cc (rw (q, finish_commit) at finished) in
    let fit = commit-IsVersion db u s commit_ts lock v late bound g own in
    let history : versions db' u ≡ insert_version (commit_ts, rec) (versions db u) =
      ap (λ c. versions c u) (sym same)
      ∙ versions-remove_foreign put _ u (lock_key-IsForeign u u)
      ∙ put_write_history u commit_ts rec fit db v.sorted v.writes in
    let sorted = insert-IsSorted db (write_key u commit_ts) (encode_write rec) v.sorted in
    let unlocked : get_lock db' u ≡ done none =
      get_lock-none db' u
        (ap (λ c. find c (lock_key u)) (sym same) ∙ find-remove_self put (lock_key u) sorted) in
    record {
      kept =
          subst (Kept (IsCommitOf s) commit_ts) (sym history)
            (Kept-own (IsCommitOf s) commit_ts rec (versions db u) ((ground arith), refl));
      unlocked = λ l e. cc (e, unlocked);
    }

-- A transaction that committed a key under its lock is neither rolled back on it nor prewrites it
-- in any later store, and another commit of it changes nothing, as long as no other transaction
-- writes in the slot of its commit.
pub commit_final :
    (db db' later : Contents) (u : List ℕ) (s commit_ts : ℕ) (lock : LockRecord)
    → IsStore db
    → s ≤ commit_ts
    → commit_ts < 2 ^ 64
    → get_lock db u ≡ done (some lock)
    → lock.start_ts ≡ s
    → apply_commit db u s commit_ts ≡ done db'
    → (r : Run 0 db' later) → OwnedRun commit_ts s r
    → ((c : Contents) → apply_rollback later u s ≢ done c)
      × ((value : List ℕ) (op : ℕ) (primary : List ℕ) (wall_ms : ℕ) (c : Contents)
          → apply_prewrite later u value op s primary wall_ms ≢ done c)
      × ((again : ℕ) → apply_commit later u s again ≡ done later)
commit_final db db' later u s commit_ts lock v late bound g own h r owned =
    let after = apply_commit-IsStore db db' u s commit_ts v late bound h in
    let end = Run-IsStore after r in
    let over =
      Run-Over (Kept (IsCommitOf s) commit_ts) commit_ts s u (committed_blocks s commit_ts)
        (λ x k a. absurd (committed_found s commit_ts x k a))
        (λ d rec x n m k. Kept-other (IsCommitOf s) commit_ts d rec x n k) r after owned
        (committed_Over db db' u s commit_ts lock v late bound g own h) in
    let stands = committed_found s commit_ts (versions later u) over.kept in
    (
      (λ c e. stands (apply_rollback_cases later c u s end e).2),
      (λ value op primary wall_ms c e.
          committed_blocks s commit_ts (versions later u) (end.keys u).fit over.kept
            (apply_prewrite-Free later c u value op s primary wall_ms end e)),
      (λ again. commit_again later u s again end over.unlocked (λ z. stands (
          match_outcome_sound s (versions later u) (versions-Descends later u end.sorted end.writes)
            (end.keys u).fit z))),
    )
