-- ===== src/Txn/Marker.antt =====
-- The rollback marker of txn/txn_ops.cc keeps the store well formed.
use flotilladb.Base.{ℕ, ◌^◌, ◌≤◌, ◌<◌, ◌≡◌, refl, sym, subst, ◌∙◌}
use flotilladb.Base.{inl, inr, some, List}
use flotilladb.Base.{arith}
use flotilladb.Base.{All}
use flotilladb.Store.{Contents, find, insert}
use flotilladb.Store.Laws.{insert-IsSorted, find-insert_other}
use flotilladb.Txn.Codec.{WriteRecord, lock_key, data_key, write_key, encode_write}
use flotilladb.Txn.History.{versions}
use flotilladb.Txn.History.Update.{insert_version}
use flotilladb.Txn.Keys.{lock_key-ne-write_key, data_key-ne-write_key}
use flotilladb.Txn.Locks.{keys_cases, All-Valued}
use flotilladb.Txn.Valid.{
  Older, HasValue, Valued, Disjoint, Locked, IsVersion, IsStore, IsKey, All-insert_version,
  Disjoint-insert_marker,
}
use flotilladb.Txn.Writes.{Same-IsKey, put_write_history, put_write-HasWrites, put_write-Same}

abbrev pub marker_of : ℕ → WriteRecord
marker_of start_ts = record { kind = 3; start_ts = start_ts }

pub marker-IsVersion : (s : ℕ) → 1 ≤ s → s < 2 ^ 64 → IsVersion (s, marker_of s)
marker-IsVersion s pos bound = record {
  kind = omega arith;
  kind_max = omega arith;
  positive = pos;
  started = omega arith;
  marker = λ m. refl;
  bound = bound;
}

-- The put of a rollback marker keeps the store well formed.
pub marker-IsStore :
    (db : Contents) (u : List ℕ) (s : ℕ)
    → IsStore db
    → 1 ≤ s
    → s < 2 ^ 64
    → IsStore (insert db (write_key u s) (encode_write (marker_of s)))
marker-IsStore db u s v pos bound = record {
  sorted = insert-IsSorted db _ _ v.sorted;
  writes = put_write-HasWrites u s (marker_of s) fit db v.writes;
  keys = λ w. elim (keys_cases u w) [
    | inl e ↦ subst (IsKey marked) e at_key
    | inr n ↦ Same-IsKey w (put_write-Same u s (marker_of s) fit db w n) (v.keys w)
  ];
}
  where
    marked : Contents
    marked = insert db (write_key u s) (encode_write (marker_of s))

    fit : IsVersion (s, marker_of s)
    fit = marker-IsVersion s pos bound

    history : versions marked u ≡ insert_version (s, marker_of s) (versions db u)
    history = put_write_history u s (marker_of s) fit db v.sorted v.writes

    value : (t : ℕ) → find marked (data_key u t) ≡ find db (data_key u t)
    value t = find-insert_other db _ _ _ (λ e. data_key-ne-write_key u u t s (sym e))

    keeps :
        (t : ℕ)
        → HasValue (λ t. find db (data_key u t)) t
        → HasValue (λ t. find marked (data_key u t)) t
    keeps t has = (has.0, value t ∙ has.1)

    locks :
        (raw : List ℕ)
        → find marked (lock_key u) ≡ some raw
        → Locked (versions marked u) (λ t. find marked (data_key u t)) raw
    locks raw e =
        let k =
          (v.keys u).locks raw
            (sym (find-insert_other db _ _ _ (λ d. lock_key-ne-write_key u u s (sym d))) ∙ e) in
        record {
          lock = k.lock;
          decoded = k.decoded;
          positive = k.positive;
          bound = k.bound;
          op = k.op;
          valued = λ o. keeps k.lock.start_ts (k.valued o);
          older = subst (All (Older k.lock.start_ts)) (sym history) (
              All-insert_version (Older k.lock.start_ts) (s, marker_of s) (versions db u)
                (λ n. absurd (n refl)) k.older);
        }

    at_key : IsKey marked u
    at_key = record {
      fit =
          subst (All IsVersion) (sym history)
            (All-insert_version IsVersion (s, marker_of s) (versions db u) fit (v.keys u).fit);
      disjoint =
          subst (λ h. Disjoint h) (sym history)
            (Disjoint-insert_marker (s, marker_of s) (versions db u) refl (v.keys u).disjoint);
      valued = subst (All (Valued (λ t. find marked (data_key u t)))) (sym history) (
          All-insert_version _ (s, marker_of s) (versions db u) (λ m. absurd (omega (arith, m)))
            (All-Valued _ _ (versions db u) keeps (v.keys u).valued));
      locks = locks;
    }
