-- ===== src/Txn/Rollback.antt =====
-- `ApplyRollback` of txn/txn_ops.cc keeps the store well formed.
use flotilladb.Base.{ℕ, ◌^◌, ◌≤◌, ◌<◌, ◌≡◌, sym, ap, subst, ◌∙◌}
use flotilladb.Base.{◌≢◌, ◌⊎◌, inl, inr, true, false, Option, none, some, List, [], ◌∷◌}
use flotilladb.Base.{arith, ◌==◌, Bool-cases}
use flotilladb.Base.{All}
use flotilladb.Status.{Result, done, >>=-eq-done}
use flotilladb.Store.{Contents, find, insert, remove}
use flotilladb.Store.Laws.{IsSorted, remove-IsSorted, find-remove_self, find-remove_other}
use flotilladb.Txn.Codec.{LockRecord, lock_key, data_key, write_key, encode_write}
use flotilladb.Txn.Ops.{
  Outcome, match_outcome, get_lock, find_txn_outcome, unlock, rollback_after, apply_rollback,
}
use flotilladb.Txn.History.{Version, versions}
use flotilladb.Txn.History.Walk.{fold_until}
use flotilladb.Txn.History.Update.{versions-remove_foreign, HasWrites-remove}
use flotilladb.Txn.Keys.{lock_key-ne-data_key, data_key-ts, lock_key-IsForeign, data_key-IsForeign}
use flotilladb.Txn.Locks.{keys_cases, search_all}
use flotilladb.Txn.Marker.{marker_of, marker-IsStore}
use flotilladb.Txn.Searches.{
  versions-Descends, Foreign, Marked, match_outcome_sound, match_outcome-Marked,
}
use flotilladb.Txn.Valid.{Valued, Disjoint, IsVersion, IsStore, IsKey}
use flotilladb.Txn.Writes.{Same-trans, Same-IsKey, drop_lock-Same, drop_data-Same}

-- A successful rollback found no commit of its transaction, and puts a marker if there is none yet.
pub apply_rollback_cases :
    (db db' : Contents) (u : List ℕ) (s : ℕ)
    → IsStore db
    → apply_rollback db u s ≡ done db'
    → (l : Option LockRecord) × (get_lock db u ≡ done l)
      × All (Foreign s) (versions db u)
      × (((unlock db u s l ≡ db') × Marked s (versions db u))
          ⊎ (insert (unlock db u s l) (write_key u s) (encode_write (marker_of s)) ≡ db'))
unfolding apply_rollback find_txn_outcome rollback_after
apply_rollback_cases db db' u s v h =
    let lock = >>=-eq-done (get_lock db u) _ h in
    let outcome = >>=-eq-done (find_txn_outcome db u s) (rollback_after db u s lock.0) lock.2 in
    let seen : ◌≡◌ {A = Result Outcome}
        (done (fold_until (match_outcome s) (0, false) (versions db u))) (done outcome.0) =
      sym (search_all db u (match_outcome s) (0, false) v) ∙ outcome.1 in
    let same : fold_until (match_outcome s) (0, false) (versions db u) ≡ outcome.0 = cc seen in
    let verdict = go lock.0 outcome.0 outcome.2 in
    (
      lock.0,
      lock.1,
      match_outcome_sound s (versions db u) (versions-Descends db u v.sorted v.writes)
          (v.keys u).fit (ap (λ (o : Outcome). o.0) same ∙ verdict.0),
      elim verdict.1 [
        | inl (e, m) ↦
            inl (e, match_outcome-Marked s (versions db u) (ap (λ (o : Outcome). o.1) same ∙ m))
        | inr e ↦ inr e
      ],
    )
  where
    go :
        (l : Option LockRecord) (o : Outcome)
        → rollback_after db u s l o ≡ done db'
        → (o.0 ≡ 0)
          × (((unlock db u s l ≡ db') × (o.1 ≡ true))
              ⊎ (insert (unlock db u s l) (write_key u s) (encode_write (marker_of s)) ≡ db'))
    go l (c, b) e = elim (Bool-cases (c == 0)) [
      | inl z ↦ elim (Bool-cases b) [
        | inl m ↦ (ground arith, inl (cc (rw (z, m, rollback_after) at e), m))
        | inr m ↦ (ground arith, inr (cc (rw (z, m, rollback_after) at e)))
      ]
      | inr z ↦ cc (rw (z, rollback_after) at e)
    ]

module _ (db : Contents) (u : List ℕ) (s : ℕ) (v : IsStore db) (bound : s < 2 ^ 64)
    (free : All (Foreign s) (versions db u)) where
  dropped : Contents
  dropped = remove (remove db (lock_key u)) (data_key u s)

  IsSorted-once : IsSorted (remove db (lock_key u))
  IsSorted-once = remove-IsSorted db _ v.sorted

  value_kept : (t : ℕ) → t < 2 ^ 64 → s ≢ t → find dropped (data_key u t) ≡ find db (data_key u t)
  unfolding dropped
  value_kept t b n =
      find-remove_other _ _ _ IsSorted-once (λ e. n (data_key-ts u s t bound b e))
      ∙ find-remove_other db _ _ v.sorted (lock_key-ne-data_key u u t)

  Valued-kept :
      (h : List Version)
      → All (Foreign s) h
      → All IsVersion h
      → All (Valued (λ t. find db (data_key u t))) h
      → All (Valued (λ t. find dropped (data_key u t))) h
  Valued-kept [] f i a = tt
  Valued-kept (x ∷ h) f i a = (
    (λ m. (
      (a.0 m).0,
      value_kept x.1.start_ts (omega (arith, i.0.started, i.0.bound))
            (λ e. f.0 (λ k. absurd (omega (arith, k, m))) (sym e))
          ∙ (a.0 m).1,
    )),
    Valued-kept h f.1 i.1 a.1,
  )

  drop-IsStore : IsStore dropped
  unfolding dropped
  drop-IsStore = record {
    sorted = remove-IsSorted _ _ IsSorted-once;
    writes = HasWrites-remove _ _ (HasWrites-remove db _ v.writes);
    keys = λ w. elim (keys_cases u w) [
      | inl e ↦ subst (IsKey dropped) e at_key
      | inr n ↦
          Same-IsKey w
            (Same-trans w (drop_lock-Same db u w n v.sorted)
              (drop_data-Same _ u w n s IsSorted-once))
            (v.keys w)
    ];
  }
    where
      history : versions dropped u ≡ versions db u
      history =
          versions-remove_foreign _ _ u (data_key-IsForeign u u s)
          ∙ versions-remove_foreign db _ u (lock_key-IsForeign u u)

      unlocked : find dropped (lock_key u) ≡ none
      unlocked =
          find-remove_other _ _ _ IsSorted-once (λ e. lock_key-ne-data_key u u s (sym e))
          ∙ find-remove_self db (lock_key u) v.sorted

      at_key : IsKey dropped u
      at_key = record {
        fit = subst (All IsVersion) (sym history) (v.keys u).fit;
        disjoint = subst (λ h. Disjoint h) (sym history) (v.keys u).disjoint;
        valued =
            subst (All (Valued (λ t. find dropped (data_key u t)))) (sym history)
              (Valued-kept (versions db u) free (v.keys u).fit (v.keys u).valued);
        locks = λ r e. cc (e, unlocked);
      }

  pub unlock-IsStore : (l : Option LockRecord) → IsStore (unlock db u s l)
  unfolding unlock dropped
  unlock-IsStore none = v
  unlock-IsStore (some l) = elim (Bool-cases (l.start_ts == s)) [
    | inl e ↦ rw e drop-IsStore
    | inr e ↦ rw e v
  ]

-- A rollback keeps the store well formed.
pub apply_rollback-IsStore :
    (db db' : Contents) (u : List ℕ) (s : ℕ)
    → IsStore db
    → 1 ≤ s
    → s < 2 ^ 64
    → apply_rollback db u s ≡ done db'
    → IsStore db'
apply_rollback-IsStore db db' u s v pos bound h =
    let (l, g, free, e) = apply_rollback_cases db db' u s v h in
    let unlocked = unlock-IsStore db u s v bound free l in
    elim e [
      | inl (same, _) ↦ subst IsStore same unlocked
      | inr same ↦ subst IsStore same (marker-IsStore (unlock db u s l) u s unlocked pos bound)
    ]
