-- ===== src/Txn/Commit.antt =====
-- `ApplyCommit` of txn/txn_ops.cc keeps the store well formed.
use flotilladb.Base.{ℕ, ◌^◌, ◌≤◌, ◌<◌, ◌≡◌, sym, ap, subst, ◌∙◌}
use flotilladb.Base.{◌⊎◌, inl, inr, true, false, Option, none, some, List}
use flotilladb.Base.{arith, ◌==◌, if◌then◌else◌, Bool-cases}
use flotilladb.Base.{All}
use flotilladb.Status.{done, >>=-eq-done}
use flotilladb.Store.{Contents, find, insert, remove}
use flotilladb.Store.Laws.{
  IsSorted, insert-IsSorted, remove-IsSorted, find-insert_other, find-remove_self,
  find-remove_other,
}
use flotilladb.Txn.Codec.{LockRecord, WriteRecord, lock_key, data_key, write_key, encode_write}
use flotilladb.Txn.Ops.{
  Outcome, get_lock, find_txn_outcome, history_verdict, consult_history, finish_commit,
  apply_commit,
}
use flotilladb.Txn.History.{versions}
use flotilladb.Txn.History.Update.{insert_version, versions-remove_foreign, HasWrites-remove}
use flotilladb.Txn.Keys.{lock_key-ne-data_key, data_key-ne-write_key, lock_key-IsForeign}
use flotilladb.Txn.Locks.{own_lock, keys_cases, All-Valued}
use flotilladb.Txn.Valid.{
  Valued, Disjoint, Locked, IsVersion, IsStore, IsKey, All-insert_version, Disjoint-insert_version,
}
use flotilladb.Txn.Writes.{
  Same-trans, Same-IsKey, put_write_history, put_write-HasWrites, put_write-Same, drop_lock-Same,
}

abbrev pub commit_record : ℕ → ℕ → WriteRecord
commit_record op start_ts = record { kind = if op == 2 then 2 else 1; start_ts = start_ts }

-- A commit leaves the store as it is, or turns the transaction's lock into a write record.
pub apply_commit_cases :
    (db db' : Contents) (u : List ℕ) (start_ts commit_ts : ℕ)
    → apply_commit db u start_ts commit_ts ≡ done db'
    → (db' ≡ db)
      ⊎ ((l : LockRecord) × (get_lock db u ≡ done (some l))
          × (l.start_ts ≡ start_ts)
          × (remove
                (insert db (write_key u commit_ts) (encode_write (commit_record l.op start_ts)))
                (lock_key u)
              ≡ db'))
unfolding apply_commit finish_commit consult_history
apply_commit_cases db db' u start_ts commit_ts h =
    let found = >>=-eq-done (get_lock db u) (finish_commit db u start_ts commit_ts) h in
    go found.0 found.1 found.2
  where
    verdict : consult_history db u start_ts ≡ done db' → db' ≡ db
    verdict e =
        let o = >>=-eq-done (find_txn_outcome db u start_ts) (history_verdict db) e in last o.0 o.2
      where
        last : (o : Outcome) → history_verdict db o ≡ done db' → db' ≡ db
        last (c, true) e = unfold history_verdict in ground arith
        last (c, false) e = unfold history_verdict in ground arith

    go :
        (l : Option LockRecord)
        → get_lock db u ≡ done l
        → finish_commit db u start_ts commit_ts l ≡ done db'
        → (db' ≡ db)
          ⊎ ((l : LockRecord) × (get_lock db u ≡ done (some l))
              × (l.start_ts ≡ start_ts)
              × (remove
                    (insert db (write_key u commit_ts) (encode_write (commit_record l.op start_ts)))
                    (lock_key u)
                  ≡ db'))
    go none g e = inl (verdict e)
    go (some l) g e = elim (Bool-cases (l.start_ts == start_ts)) [
      | inl q ↦
          let same : l.start_ts ≡ start_ts = ground arith in
          inr (l, g, same, cc (rw (q, finish_commit) at e))
      | inr q ↦ inl (verdict (rw (q, finish_commit) at e))
    ]

module _ (db : Contents) (u : List ℕ) (c : ℕ) (raw : List ℕ) (v : IsStore db)
    (k : Locked (versions db u) (λ t. find db (data_key u t)) raw) (late : k.lock.start_ts ≤ c)
    (bound : c < 2 ^ 64) where
  made : WriteRecord
  made = commit_record k.lock.op k.lock.start_ts

  pub made-IsVersion : IsVersion (c, commit_record k.lock.op k.lock.start_ts)
  made-IsVersion = elim k.op [
    | inl e ↦ rw e (record {
      kind = omega arith;
      kind_max = omega arith;
      positive = k.positive;
      started = late;
      marker = λ m. absurd (omega (arith, m));
      bound = bound;
    })
    | inr e ↦ rw e (record {
      kind = omega arith;
      kind_max = omega arith;
      positive = k.positive;
      started = late;
      marker = λ m. absurd (omega (arith, m));
      bound = bound;
    })
  ]

  made-Valued : Valued (λ t. find db (data_key u t)) (c, made)
  unfolding made
  made-Valued m = k.valued (elim k.op [ inl e ↦ e | inr e ↦ absurd (ground arith) ])

  put : Contents
  put = insert db (write_key u c) (encode_write made)

  pub commit_lock-IsStore : IsStore (
      remove
        (insert db (write_key u c) (encode_write (commit_record k.lock.op k.lock.start_ts)))
        (lock_key u))
  unfolding put made
  commit_lock-IsStore = record {
    sorted = remove-IsSorted put _ sorted;
    writes = HasWrites-remove put _ (put_write-HasWrites u c made made-IsVersion db v.writes);
    keys = λ w. elim (keys_cases u w) [
      | inl e ↦ subst (IsKey (remove put (lock_key u))) e at_key
      | inr n ↦
          Same-IsKey w
            (Same-trans w (put_write-Same u c made made-IsVersion db w n)
              (drop_lock-Same put u w n sorted))
            (v.keys w)
    ];
  }
    where
      sorted : IsSorted put
      sorted = insert-IsSorted db _ _ v.sorted

      history : versions (remove put (lock_key u)) u ≡ insert_version (c, made) (versions db u)
      history =
          versions-remove_foreign put _ u (lock_key-IsForeign u u)
          ∙ put_write_history u c made made-IsVersion db v.sorted v.writes

      value : (t : ℕ) → find (remove put (lock_key u)) (data_key u t) ≡ find db (data_key u t)
      value t =
          find-remove_other put _ _ sorted (lock_key-ne-data_key u u t)
          ∙ find-insert_other db _ _ _ (λ e. data_key-ne-write_key u u t c (sym e))

      at_key : IsKey (remove put (lock_key u)) u
      at_key = record {
        fit =
            subst (All IsVersion) (sym history) (
              All-insert_version IsVersion (c, made) (versions db u) made-IsVersion (v.keys u).fit);
        disjoint =
            subst (λ h. Disjoint h) (sym history)
              (Disjoint-insert_version (c, made) (versions db u) late k.older (v.keys u).disjoint);
        valued =
            subst (All (Valued (λ t. find (remove put (lock_key u)) (data_key u t)))) (sym history)
              (All-Valued _ _ (insert_version (c, made) (versions db u))
                (λ t has. (has.0, value t ∙ has.1))
                (All-insert_version _ (c, made) (versions db u) made-Valued (v.keys u).valued));
        locks = λ r e. cc (e, find-remove_self put (lock_key u) sorted);
      }

-- A commit at or after the start of its transaction keeps the store well formed.
pub apply_commit-IsStore :
    (db db' : Contents) (u : List ℕ) (start_ts commit_ts : ℕ)
    → IsStore db
    → start_ts ≤ commit_ts
    → commit_ts < 2 ^ 64
    → apply_commit db u start_ts commit_ts ≡ done db'
    → IsStore db'
apply_commit-IsStore db db' u start_ts commit_ts v late bound h =
    elim (apply_commit_cases db db' u start_ts commit_ts h) [
      | inl e ↦ subst IsStore (sym e) v
      | inr (l, g, s, e) ↦ turn l s e (own_lock db u l v g)
    ]
  where
    turn :
        (l : LockRecord)
        → l.start_ts ≡ start_ts
        → remove
            (insert db (write_key u commit_ts) (encode_write (commit_record l.op start_ts)))
            (lock_key u)
          ≡ db'
        → ((raw : List ℕ) × (k : Locked (versions db u) (λ t. find db (data_key u t)) raw) × (find
                db
                (lock_key u)
              ≡ some raw)
            × (k.lock ≡ l))
        → IsStore db'
    turn l s e (raw, k, n, same) =
        let at : k.lock.start_ts ≡ start_ts = ap (λ (x : LockRecord). x.start_ts) same ∙ s in
        let rec : commit_record k.lock.op k.lock.start_ts ≡ commit_record l.op start_ts =
          λ i. commit_record (same i).op (at i) in
        subst IsStore
          (ap (λ r. remove (insert db (write_key u commit_ts) (encode_write r)) (lock_key u)) rec
            ∙ e)
          (commit_lock-IsStore db u commit_ts raw v k (omega (arith, at)) bound)
