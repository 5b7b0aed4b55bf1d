-- ===== src/Txn/Writes.antt =====
-- The single writes of txn/txn_ops.cc: what they change of the state of each user key.
use flotilladb.Base.{ℕ, ◌^◌, ◌<◌, ◌≡◌, refl, sym, ap, subst, ◌∙◌}
use flotilladb.Base.{◌≢◌, inl, inr, true, false, some, List}
use flotilladb.Base.{arith, leb, Bool-cases}
use mathlib.Core.Path.{fun_ext}
use flotilladb.Store.{Contents, find, insert, remove}
use flotilladb.Store.Laws.{IsSorted, find-insert_other, find-remove_other}
use flotilladb.Txn.Codec.{
  WriteRecord, lock_key, write_key, data_key, encode_write, decode_write, same_bytes,
}
use flotilladb.Txn.Codec.Parse.{parse_write_key-write_key}
use flotilladb.Txn.Codec.RoundTrip.{decode_write-encode_write}
use flotilladb.Txn.History.{
  version_of, versions, IsWrite, HasWrites, same_bytes_refl, same_bytes-eq, version_of-IsWrite,
}
use flotilladb.Txn.History.Update.{
  insert_version, IsForeign, versions-insert, versions-insert_foreign, versions-remove_foreign,
  HasWrites-insert,
}
use flotilladb.Txn.Keys.{
  purpose, lock_key-ne-data_key, lock_key-ne-write_key, data_key-ne-write_key, lock_key-injective,
  data_key-user, lock_key-IsForeign, data_key-IsForeign,
}
use flotilladb.Txn.Valid.{IsVersion, IsKey, IsKeyState}

-- Two stores agree on a user key.
pub record Same (db db' : Contents) (u : List ℕ) : Type 0 where
  pub history : versions db' u ≡ versions db u
  pub lock : find db' (lock_key u) ≡ find db (lock_key u)
  pub value : (ts : ℕ) → find db' (data_key u ts) ≡ find db (data_key u ts)

pub Same-trans : {a b c : Contents} (u : List ℕ) → Same a b u → Same b c u → Same a c u
Same-trans u s t = record {
  history = t.history ∙ s.history;
  lock = t.lock ∙ s.lock;
  value = λ ts. t.value ts ∙ s.value ts;
}

pub Same-IsKey : {a b : Contents} (u : List ℕ) → Same a b u → IsKey a u → IsKey b u
Same-IsKey {a} {b} u s k =
    subst (λ h. IsKeyState h (find b (lock_key u)) (λ ts. find b (data_key u ts))) (sym s.history)
      (subst (λ l. IsKeyState (versions a u) l (λ ts. find b (data_key u ts))) (sym s.lock)
        (subst (λ v. IsKeyState (versions a u) (find a (lock_key u)) v)
          (fun_ext (λ ts. sym (s.value ts))) k))

pub write_key-IsForeign :
    (u w : List ℕ) (ts : ℕ) → ts < 2 ^ 64 → u ≢ w → IsForeign (write_key u ts) w
unfolding version_of
write_key-IsForeign u w ts b n v =
    let other : same_bytes u w ≡ false = elim (Bool-cases (same_bytes u w)) [
      | inl e ↦ absurd (n (same_bytes-eq u w e))
      | inr e ↦ e
    ] in
    rw (version_of, parse_write_key-write_key u ts b, other) refl

-- No write of one key changes another user key.
pub Same-insert :
    (db : Contents) (k v w : List ℕ)
    → IsForeign k w
    → k ≢ lock_key w
    → ((ts : ℕ) → k ≢ data_key w ts)
    → Same db (insert db k v) w
Same-insert db k v w f l d = record {
  history = versions-insert_foreign db k v w f;
  lock = find-insert_other db k v (lock_key w) l;
  value = λ ts. find-insert_other db k v (data_key w ts) (d ts);
}

pub Same-remove :
    (db : Contents) (k w : List ℕ)
    → IsSorted db
    → IsForeign k w
    → k ≢ lock_key w
    → ((ts : ℕ) → k ≢ data_key w ts)
    → Same db (remove db k) w
Same-remove db k w s f l d = record {
  history = versions-remove_foreign db k w f;
  lock = find-remove_other db k (lock_key w) s l;
  value = λ ts. find-remove_other db k (data_key w ts) s (d ts);
}

-- What a store is behind a write under a lock key or a data key
pub no_write :
    (db : Contents) (k v : List ℕ) → purpose k ≢ b'w' → HasWrites db → HasWrites (insert db k v)
unfolding purpose
no_write db k v n w = HasWrites-insert db k v (λ rest e. absurd (n (ap purpose e))) w

pub lock_purpose : (u : List ℕ) → purpose (lock_key u) ≢ b'w'
unfolding purpose lock_key
lock_purpose u = omega arith

pub data_purpose : (u : List ℕ) (ts : ℕ) → purpose (data_key u ts) ≢ b'w'
unfolding purpose data_key
data_purpose u ts = omega arith

module _ (u : List ℕ) (ts : ℕ) (rec : WriteRecord) (r : IsVersion (ts, rec)) where
  encoded : decode_write (encode_write rec) ≡ some rec
  encoded =
      decode_write-encode_write rec r.kind_max (omega (arith, r.started, r.bound))
      ∙ (let known : leb 1 rec.kind ≡ true = ground (arith, r.kind) in rw known refl)

  pub encode-IsWrite : IsWrite (write_key u ts) (encode_write rec)
  encode-IsWrite = record {
    user_key = u;
    commit_ts = ts;
    rec = rec;
    bound = r.bound;
    key_eq = refl;
    value_eq = encoded;
  }

  version_of-encode : version_of (write_key u ts) (encode_write rec) u ≡ some (ts, rec)
  unfolding encode-IsWrite
  version_of-encode =
      version_of-IsWrite (write_key u ts) (encode_write rec) u encode-IsWrite
      ∙ rw (same_bytes_refl u) refl

  -- What the put of a write record does
  pub put_write_history :
      (db : Contents)
      → IsSorted db
      → HasWrites db
      → versions (insert db (write_key u ts) (encode_write rec)) u
        ≡ insert_version (ts, rec) (versions db u)
  put_write_history db s w =
      versions-insert u ts rec r.bound db (encode_write rec) s w version_of-encode

  pub put_write-HasWrites :
      (db : Contents) → HasWrites db → HasWrites (insert db (write_key u ts) (encode_write rec))
  put_write-HasWrites db w = HasWrites-insert db _ _ (λ rest e. encode-IsWrite) w

  pub put_write-Same :
      (db : Contents) (w : List ℕ)
      → u ≢ w
      → Same db (insert db (write_key u ts) (encode_write rec)) w
  put_write-Same db w n =
      Same-insert db _ _ w (write_key-IsForeign u w ts r.bound n)
        (λ e. lock_key-ne-write_key w u ts (sym e)) (λ t e. data_key-ne-write_key w u t ts (sym e))

module _ (db : Contents) (u w : List ℕ) (n : u ≢ w) where
  pub put_lock-Same : (raw : List ℕ) → Same db (insert db (lock_key u) raw) w
  put_lock-Same raw =
      Same-insert db _ raw w (lock_key-IsForeign u w) (λ e. n (lock_key-injective u w e))
        (λ t. lock_key-ne-data_key u w t)

  pub put_data-Same : (ts : ℕ) (v : List ℕ) → Same db (insert db (data_key u ts) v) w
  put_data-Same ts v =
      Same-insert db _ v w (data_key-IsForeign u w ts) (λ e. lock_key-ne-data_key w u ts (sym e))
        (λ t e. n (data_key-user u w ts t e))

  pub drop_lock-Same : IsSorted db → Same db (remove db (lock_key u)) w
  drop_lock-Same s =
      Same-remove db _ w s (lock_key-IsForeign u w) (λ e. n (lock_key-injective u w e))
        (λ t. lock_key-ne-data_key u w t)

  pub drop_data-Same : (ts : ℕ) → IsSorted db → Same db (remove db (data_key u ts)) w
  drop_data-Same ts s =
      Same-remove db _ w s (data_key-IsForeign u w ts) (λ e. lock_key-ne-data_key w u ts (sym e))
        (λ t e. n (data_key-user u w ts t e))
