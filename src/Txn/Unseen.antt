-- ===== src/Txn/Unseen.antt =====
-- What a transaction leaves unchanged for a reader whose timestamp is below its own.
use flotilladb.Base.{ℕ, ◌^◌, ◌≤◌, ◌<◌, ◌≡◌, refl, sym, ap, subst, ◌∙◌}
use flotilladb.Base.{inl, inr, some, List, [], ◌∷◌}
use flotilladb.Base.{arith}
use flotilladb.Store.{Contents, find, insert, remove}
use flotilladb.Store.Laws.{
  IsSorted, find-insert_self, find-insert_other, find-remove_self, find-remove_other,
}
use flotilladb.Txn.Codec.{
  LockRecord, WriteRecord, lock_key, data_key, write_key, encode_lock, decode_lock, encode_write,
}
use flotilladb.Txn.Codec.RoundTrip.{LockFits, decode_lock-encode_lock}
use flotilladb.Txn.History.{Version, versions}
use flotilladb.Txn.History.Update.{insert_version, versions-insert_foreign, versions-remove_foreign}
use flotilladb.Txn.Keys.{
  lock_key-ne-data_key, lock_key-ne-write_key, data_key-ne-write_key, lock_key-injective,
  data_key-user, data_key-ts, lock_key-IsForeign, data_key-IsForeign,
}
use flotilladb.Txn.Locks.{keys_cases}
use flotilladb.Txn.Reads.{snapshot}
use flotilladb.Txn.Valid.{IsVersion, IsStore}
use flotilladb.Txn.Writes.{Same, put_write_history, put_write-Same}

-- No lock of a transaction that started at or before `ts`
abbrev pub Unblocked : ℕ → Contents → List ℕ → Type 0
Unblocked ts db u =
    (raw : List ℕ)
    → find db (lock_key u) ≡ some raw
    → (lock : LockRecord) × (decode_lock raw ≡ some lock) × (ts < lock.start_ts)

-- A reader at `ts` sees the same of a user key in both stores.
pub record Unseen (ts : ℕ) (db db' : Contents) (u : List ℕ) : Type 0 where
  pub commit : snapshot ts (versions db' u) ≡ snapshot ts (versions db u)
  pub value : (t : ℕ) → t ≤ ts → find db' (data_key u t) ≡ find db (data_key u t)
  pub unblocked : Unblocked ts db u → Unblocked ts db' u

pub Unseen-refl : (ts : ℕ) (db : Contents) (u : List ℕ) → Unseen ts db db u
Unseen-refl ts db u = record { commit = refl; value = λ t b. refl; unblocked = λ n. n }

pub Unseen-trans :
    {ts : ℕ} {a b c : Contents} (u : List ℕ) → Unseen ts a b u → Unseen ts b c u → Unseen ts a c u
Unseen-trans u s t = record {
  commit = t.commit ∙ s.commit;
  value = λ x b. t.value x b ∙ s.value x b;
  unblocked = λ n. t.unblocked (s.unblocked n);
}

pub Same-Unseen : {db db' : Contents} (ts : ℕ) (u : List ℕ) → Same db db' u → Unseen ts db db' u
Same-Unseen ts u s = record {
  commit = ap (snapshot ts) s.history;
  value = λ t b. s.value t;
  unblocked = λ n raw e. n raw (sym s.lock ∙ e);
}

-- A version above the timestamp is not in the snapshot, nor is a rollback marker.
pub snapshot-insert_version :
    (ts : ℕ) (x : Version) (h : List Version)
    → ts < x.0
    → snapshot ts (insert_version x h) ≡ snapshot ts h
unfolding snapshot insert_version
snapshot-insert_version ts (c, r) [] b = ground arith
snapshot-insert_version ts (c, r) ((d, q) ∷ h) b =
    ground (arith, snapshot-insert_version ts (c, r) h b)

module _ (db : Contents) (ts : ℕ) (u w : List ℕ) where
  pub put_lock-Unseen :
      (lock : LockRecord)
      → LockFits lock
      → ts < lock.start_ts
      → Unseen ts db (insert db (lock_key u) (encode_lock lock)) w
  put_lock-Unseen lock f late = record {
    commit = ap (snapshot ts) (versions-insert_foreign db _ _ w (lock_key-IsForeign u w));
    value = λ t b. find-insert_other db _ _ _ (lock_key-ne-data_key u w t);
    unblocked = λ n raw e. elim (keys_cases u w) [
      | inl same ↦
          let written : encode_lock lock ≡ raw = cc (
            ap (λ k. find (insert db (lock_key u) (encode_lock lock)) (lock_key k)) same,
            find-insert_self db (lock_key u) (encode_lock lock),
            e,
          ) in
          (lock, ap decode_lock (sym written) ∙ decode_lock-encode_lock lock f, late)
      | inr other ↦
          n raw (sym (find-insert_other db _ _ _ (λ p. other (lock_key-injective u w p))) ∙ e)
    ];
  }

  pub put_data-Unseen :
      (s : ℕ) (v : List ℕ) → s < 2 ^ 64 → ts < s → Unseen ts db (insert db (data_key u s) v) w
  put_data-Unseen s v bound late = record {
    commit = ap (snapshot ts) (versions-insert_foreign db _ _ w (data_key-IsForeign u w s));
    value = λ t b. find-insert_other db _ _ _ (λ e. absurd (
        omega (
          arith,
          data_key-ts w s t bound (omega (arith, b, late, bound))
              (ap (λ k. data_key k s) (sym (data_key-user u w s t e)) ∙ e),
          b,
          late,
        )));
    unblocked = λ n raw e.
        n raw (sym (find-insert_other db _ _ _ (λ p. lock_key-ne-data_key w u s (sym p))) ∙ e);
  }

  pub drop_lock-Unseen : IsSorted db → Unseen ts db (remove db (lock_key u)) w
  drop_lock-Unseen sorted = record {
    commit = ap (snapshot ts) (versions-remove_foreign db _ w (lock_key-IsForeign u w));
    value = λ t b. find-remove_other db _ _ sorted (lock_key-ne-data_key u w t);
    unblocked = λ n raw e. elim (keys_cases u w) [
      | inl same ↦ cc (
        ap (λ k. find (remove db (lock_key u)) (lock_key k)) same,
        find-remove_self db (lock_key u) sorted,
        e,
      )
      | inr other ↦
          n raw (sym (find-remove_other db _ _ sorted (λ p. other (lock_key-injective u w p))) ∙ e)
    ];
  }

  pub drop_data-Unseen :
      (s : ℕ) → IsSorted db → s < 2 ^ 64 → ts < s → Unseen ts db (remove db (data_key u s)) w
  drop_data-Unseen s sorted bound late = record {
    commit = ap (snapshot ts) (versions-remove_foreign db _ w (data_key-IsForeign u w s));
    value = λ t b. find-remove_other db _ _ sorted (λ e. absurd (
        omega (
          arith,
          data_key-ts w s t bound (omega (arith, b, late, bound))
              (ap (λ k. data_key k s) (sym (data_key-user u w s t e)) ∙ e),
          b,
          late,
        )));
    unblocked = λ n raw e.
        n raw (sym (find-remove_other db _ _ sorted (λ p. lock_key-ne-data_key w u s (sym p))) ∙ e);
  }

  pub put_write-Unseen :
      (c : ℕ) (rec : WriteRecord)
      → IsStore db
      → IsVersion (c, rec)
      → ts < c
      → Unseen ts db (insert db (write_key u c) (encode_write rec)) w
  put_write-Unseen c rec v fit late = record {
    commit = elim (keys_cases u w) [
      | inl same ↦
          subst
            (λ k.
              snapshot ts (versions (insert db (write_key u c) (encode_write rec)) k)
              ≡ snapshot ts (versions db k))
            same
            (ap (snapshot ts) (put_write_history u c rec fit db v.sorted v.writes)
              ∙ snapshot-insert_version ts (c, rec) (versions db u) late)
      | inr other ↦ ap (snapshot ts) (put_write-Same u c rec fit db w other).history
    ];
    value = λ t b. find-insert_other db _ _ _ (λ e. data_key-ne-write_key w u t c (sym e));
    unblocked = λ n raw e.
        n raw (sym (find-insert_other db _ _ _ (λ p. lock_key-ne-write_key w u c (sym p))) ∙ e);
  }
