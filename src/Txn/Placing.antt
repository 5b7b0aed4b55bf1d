-- ===== src/Txn/Placing.antt =====
-- The writes of `ApplyPrewrite` of txn/txn_ops.cc keep the store well formed.
use flotilladb.Base.{ℕ, ◌^◌, ◌≤◌, ◌<◌, ◌≡◌, sym, ap, subst, ◌∙◌}
use flotilladb.Base.{◌≢◌, ◌⊎◌, inl, inr, some, List}
use flotilladb.Base.{arith}
use flotilladb.Base.{length, All}
use flotilladb.Store.{Contents, find, insert}
use flotilladb.Store.Laws.{IsSorted, insert-IsSorted, find-insert_self, find-insert_other}
use flotilladb.Txn.Codec.{LockRecord, lock_key, data_key, encode_lock, decode_lock}
use flotilladb.Txn.Codec.RoundTrip.{decode_lock-encode_lock}
use flotilladb.Txn.History.{versions, HasWrites}
use flotilladb.Txn.History.Update.{versions-insert_foreign}
use flotilladb.Txn.Keys.{lock_key-ne-data_key, lock_key-IsForeign, data_key-IsForeign}
use flotilladb.Txn.Searches.{Free}
use flotilladb.Txn.Valid.{
  Older, HasValue, Valued, Disjoint, Locked, IsVersion, IsStore, IsKey, All_map,
}
use flotilladb.Txn.Writes.{
  Same, Same-trans, Same-IsKey, no_write, lock_purpose, data_purpose, put_lock-Same, put_data-Same,
}
use flotilladb.Txn.Locks.{keys_cases, All-Valued}

-- The arguments of a prewrite that the coordinator sends
pub record IsPrewrite (o s : ℕ) (p : List ℕ) (w : ℕ) : Type 0 where
  pub op : (o ≡ 1) ⊎ (o ≡ 2)
  pub positive : 1 ≤ s
  pub bound : s < 2 ^ 64
  pub primary : length p < 2 ^ 32
  pub wall_ms : w < 2 ^ 64

module _ (db : Contents) (u : List ℕ) (lock : LockRecord) (v : IsStore db)
    (p : IsPrewrite lock.op lock.start_ts lock.primary lock.wall_ms)
    (free : All (Free lock.start_ts) (versions db u)) where
  locked : Contents
  locked = insert db (lock_key u) (encode_lock lock)

  -- A store with the lock, in which nothing that was there is gone
  with_lock :
      (c : Contents)
      → IsSorted c
      → HasWrites c
      → ((w : List ℕ) → u ≢ w → Same db c w)
      → versions c u ≡ versions db u
      → find c (lock_key u) ≡ some (encode_lock lock)
      → ((ts : ℕ)
          → HasValue (λ t. find db (data_key u t)) ts
          → HasValue (λ t. find c (data_key u t)) ts)
      → (lock.op ≡ 1 → HasValue (λ t. find c (data_key u t)) lock.start_ts)
      → IsStore c
  with_lock c s w same h l keep has = record {
    sorted = s;
    writes = w;
    keys = λ k. elim (keys_cases u k) [
      | inl e ↦ subst (IsKey c) e at_key
      | inr n ↦ Same-IsKey k (same k n) (v.keys k)
    ];
  }
    where
      at_lock :
          (raw : List ℕ)
          → find c (lock_key u) ≡ some raw
          → Locked (versions c u) (λ t. find c (data_key u t)) raw
      at_lock raw e =
          let raw_eq : encode_lock lock ≡ raw = cc (e, l) in
          record {
            lock = lock;
            decoded =
                ap decode_lock (sym raw_eq)
                ∙ decode_lock-encode_lock lock (record {
                  start_ts = p.bound;
                  op = elim p.op [ inl e ↦ omega (arith, e) | inr e ↦ omega (arith, e) ];
                  wall_ms = p.wall_ms;
                  primary = p.primary;
                });
            positive = p.positive;
            bound = p.bound;
            op = p.op;
            valued = has;
            older = subst (All (Older lock.start_ts)) (sym h) (
                All_map (Free lock.start_ts) (Older lock.start_ts) (versions db u) (λ x q. q.0)
                  free);
          }

      at_key : IsKey c u
      at_key = record {
        fit = subst (All IsVersion) (sym h) (v.keys u).fit;
        disjoint = subst (λ x. Disjoint x) (sym h) (v.keys u).disjoint;
        valued =
            subst (All (Valued (λ t. find c (data_key u t)))) (sym h)
              (All-Valued _ _ (versions db u) keep (v.keys u).valued);
        locks = at_lock;
      }

  pub lock_only-IsStore : lock.op ≢ 1 → IsStore (insert db (lock_key u) (encode_lock lock))
  unfolding with_lock
  lock_only-IsStore n =
      with_lock _ (insert-IsSorted db _ _ v.sorted) (no_write db _ _ (lock_purpose u) v.writes)
        (λ w q. put_lock-Same db u w q (encode_lock lock))
        (versions-insert_foreign db _ _ u (lock_key-IsForeign u u))
        (find-insert_self db (lock_key u) (encode_lock lock))
        (λ ts has. (has.0, find-insert_other db _ _ _ (lock_key-ne-data_key u u ts) ∙ has.1))
        (λ e. absurd (n e))

  pub lock_and_value-IsStore :
      (value : List ℕ)
      → IsStore
          (insert (insert db (lock_key u) (encode_lock lock)) (data_key u lock.start_ts) value)
  lock_and_value-IsStore value =
      let c = insert db (lock_key u) (encode_lock lock) in
      with_lock _ (insert-IsSorted c _ _ (insert-IsSorted db _ _ v.sorted))
        (no_write c _ _ (data_purpose u lock.start_ts) (no_write db _ _ (lock_purpose u) v.writes))
        (λ w q.
          Same-trans w (put_lock-Same db u w q (encode_lock lock))
            (put_data-Same c u w q lock.start_ts value))
        (versions-insert_foreign c _ _ u (data_key-IsForeign u u lock.start_ts)
          ∙ versions-insert_foreign db _ _ u (lock_key-IsForeign u u))
        (find-insert_other c _ _ _ (λ e. lock_key-ne-data_key u u lock.start_ts (sym e))
          ∙ find-insert_self db (lock_key u) (encode_lock lock))
        (λ ts has. elim (keys_cases (data_key u lock.start_ts) (data_key u ts)) [
          | inl e ↦ (value, ap (find _) (sym e) ∙ find-insert_self c _ value)
          | inr n ↦ (
            has.0,
            find-insert_other c _ value _ n
                ∙ find-insert_other db _ _ _ (lock_key-ne-data_key u u ts)
                ∙ has.1,
          )
        ])
        (λ e. (value, find-insert_self c _ value))
