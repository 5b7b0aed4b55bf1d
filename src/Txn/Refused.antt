-- ===== src/Txn/Refused.antt =====
-- What txn/txn_ops.cc refuses of a transaction directly behind its rollback.
use flotilladb.Base.{ℕ, ◌^◌, ◌≤◌, ◌<◌, ◌≡◌, refl, sym, ap, subst, ◌∙◌}
use flotilladb.Base.{◌≢◌, inl, inr, true, false, Option, none, some, List}
use flotilladb.Base.{arith, ◌==◌, Bool-cases}
use flotilladb.Base.{All}
use flotilladb.Status.{done, >>=-eq-done}
use flotilladb.Store.{Contents, find, remove}
use flotilladb.Store.Laws.{remove-IsSorted, find-insert_other, find-remove_self, find-remove_other}
use flotilladb.Txn.Codec.{LockRecord, lock_key, data_key}
use flotilladb.Txn.Ops.{
  Outcome, match_outcome, get_lock, find_txn_outcome, history_verdict, consult_history,
  finish_commit, unlock, apply_commit, apply_rollback,
}
use flotilladb.Txn.History.{versions}
use flotilladb.Txn.History.Walk.{fold_until}
use flotilladb.Txn.History.Update.{insert_version}
use flotilladb.Txn.Keys.{lock_key-ne-data_key, lock_key-ne-write_key}
use flotilladb.Txn.Locks.{search_all, get_lock-none}
use flotilladb.Txn.Marker.{marker_of, marker-IsVersion}
use flotilladb.Txn.Rollback.{apply_rollback_cases, unlock-IsStore}
use flotilladb.Txn.Slots.{unlock_history, get_lock_same}
use flotilladb.Txn.Searches.{Foreign, Marked, Marked-insert_version, match_outcome_complete}
use flotilladb.Txn.Valid.{IsStore, All-insert_version}
use flotilladb.Txn.Writes.{put_write_history}

-- Behind a rollback no lock of its transaction is left.
unlock_lock :
    (db : Contents) (u : List ℕ) (s : ℕ) (l m : Option LockRecord)
    → IsStore db
    → get_lock db u ≡ done l
    → get_lock (unlock db u s l) u ≡ done m
    → (k : LockRecord) → m ≡ some k
    → k.start_ts ≢ s
unfolding unlock
unlock_lock db u s none m v g e k q = cc (g, e, q)
unlock_lock db u s (some l) m v g e k q = elim (Bool-cases (l.start_ts == s)) [
  | inl p ↦
      let gone : find (remove (remove db (lock_key u)) (data_key u s)) (lock_key u) ≡ none =
        find-remove_other _ _ _ (remove-IsSorted db _ v.sorted)
          (λ d. lock_key-ne-data_key u u s (sym d))
        ∙ find-remove_self db (lock_key u) v.sorted in
      cc (rw p at e, q, get_lock-none _ u gone)
  | inr p ↦
      let same : l ≡ k = cc (rw p at e, q, g) in
      λ d. absurd (ground (arith, ap (λ (x : LockRecord). x.start_ts) same, d))
]

-- The outcome that `FindTxnOutcome` reports is the one of the search over the history.
pub outcome_lem :
    (db : Contents) (u : List ℕ) (s : ℕ)
    → IsStore db
    → find_txn_outcome db u s ≡ done (fold_until (match_outcome s) (0, false) (versions db u))
unfolding find_txn_outcome
outcome_lem db u s v = search_all db u (match_outcome s) (0, false) v

-- A commit fails where the transaction has no lock on the key and committed nothing on it.
pub no_commit :
    (db c : Contents) (u : List ℕ) (s commit_ts : ℕ)
    → IsStore db
    → ((k : LockRecord) → get_lock db u ≡ done (some k) → k.start_ts ≢ s)
    → All (Foreign s) (versions db u)
    → apply_commit db u s commit_ts ≢ done c
unfolding apply_commit finish_commit consult_history
no_commit db c u s commit_ts v n f e =
    let found = >>=-eq-done (get_lock db u) (finish_commit db u s commit_ts) e in
    go found.0 found.1 found.2
  where
    verdict : consult_history db u s ≡ done c → ⊥
    verdict e =
        let o = >>=-eq-done (find_txn_outcome db u s) (history_verdict db) e in
        let same : o.0 ≡ fold_until (match_outcome s) (0, false) (versions db u) =
          cc (o.1, outcome_lem db u s v) in
        let nothing : o.0.0 ≡ 0 =
          ap (λ (x : Outcome). x.0) same ∙ match_outcome_complete s (versions db u) f in
        last o.0 nothing o.2
      where
        last : (o : Outcome) → o.0 ≡ 0 → history_verdict db o ≡ done c → ⊥
        last (t, true) z e = unfold history_verdict in ground arith
        last (t, false) z e = unfold history_verdict in ground arith

    go :
        (l : Option LockRecord)
        → get_lock db u ≡ done l
        → finish_commit db u s commit_ts l ≡ done c
        → ⊥
    go none g e = verdict e
    go (some l) g e = elim (Bool-cases (l.start_ts == s)) [
      | inl q ↦ absurd (n l g (ground arith))
      | inr q ↦ verdict (rw (q, finish_commit) at e)
    ]

module _ (db db' : Contents) (u : List ℕ) (s : ℕ) (v : IsStore db) (pos : 1 ≤ s)
    (bound : s < 2 ^ 64) (h : apply_rollback db u s ≡ done db') where
  pub rolled_back-Marked : Marked s (versions db' u) × All (Foreign s) (versions db' u)
  rolled_back-Marked =
      let (l, g, free, e) = apply_rollback_cases db db' u s v h in
      let kept = unlock-IsStore db u s v bound free l in
      let same = unlock_history db u s l in
      elim e [
        | inl (d, m) ↦
            let at : versions db' u ≡ versions db u = ap (λ c. versions c u) (sym d) ∙ same in
            (subst (Marked s) (sym at) m, subst (All (Foreign s)) (sym at) free)
        | inr d ↦
            let at : versions db' u ≡ insert_version (s, marker_of s) (versions db u) =
              ap (λ c. versions c u) (sym d)
              ∙ put_write_history u s (marker_of s) (marker-IsVersion s pos bound) (unlock db u s l)
                  kept.sorted kept.writes
              ∙ ap (insert_version (s, marker_of s)) same in
            (
              subst (Marked s) (sym at)
                  (Marked-insert_version s (marker_of s) (versions db u) refl refl),
              subst (All (Foreign s)) (sym at) (
                  All-insert_version (Foreign s) (s, marker_of s) (versions db u)
                    (λ n. absurd (n refl)) free),
            )
      ]

  pub rolled_back_unlocked : (k : LockRecord) → get_lock db' u ≡ done (some k) → k.start_ts ≢ s
  rolled_back_unlocked k gk =
      let (l, g, free, e) = apply_rollback_cases db db' u s v h in
      elim e [
        | inl (d, m) ↦ unlock_lock db u s l (some k) v g (ap (λ c. get_lock c u) d ∙ gk) k refl
        | inr d ↦
            let same : find (unlock db u s l) (lock_key u) ≡ find db' (lock_key u) =
              sym (find-insert_other _ _ _ _ (λ p. lock_key-ne-write_key u u s (sym p)))
              ∙ ap (λ c. find c (lock_key u)) d in
            unlock_lock db u s l (some k) v g (get_lock_same _ _ u same ∙ gk) k refl
      ]
