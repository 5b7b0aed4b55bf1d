-- ===== src/Txn/Run.antt =====
-- Runs of the operations of txn/txn_ops.cc, as src/server/raft_group.cc applies them one by one.
use flotilladb.Base.{ℕ, ◌^◌, ◌≤◌, ◌<◌, ◌≡◌, sym, ap, subst, ◌∙◌}
use flotilladb.Base.{inl, inr, Option, none, some, List}
use flotilladb.Base.{arith, ◌==◌, Bool-cases}
use flotilladb.Status.{done}
use flotilladb.Store.{Contents, insert}
use flotilladb.Store.Laws.{IsSorted, insert-IsSorted, remove-IsSorted}
use flotilladb.Txn.Codec.{LockRecord, lock_key, data_key, encode_lock}
use flotilladb.Txn.Ops.{place_lock, unlock, apply_prewrite, apply_commit, apply_rollback}
use flotilladb.Txn.Placing.{IsPrewrite}
use flotilladb.Txn.Prewrite.{apply_prewrite_cases, apply_prewrite-IsStore}
use flotilladb.Txn.Locks.{own_lock}
use flotilladb.Txn.Commit.{commit_record, apply_commit_cases, apply_commit-IsStore, made-IsVersion}
use flotilladb.Txn.Marker.{marker_of, marker-IsVersion}
use flotilladb.Txn.Rollback.{apply_rollback_cases, apply_rollback-IsStore, unlock-IsStore}
use flotilladb.Txn.Unseen.{
  Unseen, Unseen-refl, Unseen-trans, put_lock-Unseen, put_data-Unseen, put_write-Unseen,
  drop_lock-Unseen, drop_data-Unseen,
}
use flotilladb.Txn.Valid.{IsVersion, IsStore}

-- A successful operation whose timestamp is above `low`, with what the coordinator ensures of its
-- arguments
pub data Step (low : ℕ) : Contents → Contents → Type 0 where
  prewrite :
      (db db' : Contents) (key value : List ℕ) (op start_ts : ℕ) (primary : List ℕ) (wall_ms : ℕ)
      → low < start_ts
      → IsPrewrite op start_ts primary wall_ms
      → apply_prewrite db key value op start_ts primary wall_ms ≡ done db'
      → Step low db db'
  commit :
      (db db' : Contents) (key : List ℕ) (start_ts commit_ts : ℕ)
      → low < commit_ts
      → start_ts ≤ commit_ts
      → commit_ts < 2 ^ 64
      → apply_commit db key start_ts commit_ts ≡ done db'
      → Step low db db'
  rollback :
      (db db' : Contents) (key : List ℕ) (start_ts : ℕ)
      → low < start_ts
      → start_ts < 2 ^ 64
      → apply_rollback db key start_ts ≡ done db'
      → Step low db db'

pub data Run (low : ℕ) (db : Contents) : Contents → Type 0 where
  here : Run low db db
  next : {b c : Contents} → Run low db b → Step low b c → Run low db c

pub Step-IsStore : {low : ℕ} {a b : Contents} → Step low a b → IsStore a → IsStore b
Step-IsStore (prewrite a b k x o s p w l i h) v = apply_prewrite-IsStore a b k x o s p w v i h
Step-IsStore (commit a b k s c l o t h) v = apply_commit-IsStore a b k s c v o t h
Step-IsStore (rollback a b k s l t h) v = apply_rollback-IsStore a b k s v (omega (arith, l)) t h

-- Every run keeps the store well formed: under each user key, of two commits the older one was
-- made before the newer one's transaction started, each version that puts has its value, and a
-- lock is of a transaction that started after every commit.
pub Run-IsStore : {low : ℕ} {a b : Contents} → IsStore a → Run low a b → IsStore b
Run-IsStore v here = v
Run-IsStore v (next r s) = Step-IsStore s (Run-IsStore v r)

prewrite-Unseen :
    (ts : ℕ) (a b : Contents) (k x : List ℕ) (o s : ℕ) (p : List ℕ) (w : ℕ) (u : List ℕ)
    → IsStore a
    → ts < s
    → IsPrewrite o s p w
    → apply_prewrite a k x o s p w ≡ done b
    → Unseen ts a b u
prewrite-Unseen ts a b k x o s p w u v late i h = elim (apply_prewrite_cases a b k x o s p w v h) [
  | inl e ↦ subst (λ c. Unseen ts a c u) (sym e.0) (Unseen-refl ts a u)
  | inr (n, e) ↦ elim (Bool-cases (o == 1)) [
    | inl q ↦
        let c = insert first (data_key k s) x in
        let same : c ≡ b = unfold place_lock in (cc (rw q at e)) in
        subst (λ c. Unseen ts a c u) same
          (Unseen-trans u locks (put_data-Unseen first ts k u s x i.bound late))
    | inr q ↦
        let same : first ≡ b = unfold place_lock in (cc (rw q at e)) in
        subst (λ c. Unseen ts a c u) same locks
  ]
]
  where
    lock : LockRecord
    lock = record { start_ts = s; op = o; wall_ms = w; primary = p }

    first : Contents
    first = insert a (lock_key k) (encode_lock lock)

    locks : Unseen ts a first u
    locks =
        put_lock-Unseen a ts k u lock
          (record {
            start_ts = i.bound;
            op = elim i.op [ inl e ↦ omega (arith, e) | inr e ↦ omega (arith, e) ];
            wall_ms = i.wall_ms;
            primary = i.primary;
          })
          late

commit-Unseen :
    (ts : ℕ) (a b : Contents) (k : List ℕ) (s c : ℕ) (u : List ℕ)
    → IsStore a
    → ts < c
    → s ≤ c
    → c < 2 ^ 64
    → apply_commit a k s c ≡ done b
    → Unseen ts a b u
commit-Unseen ts a b k s c u v late after bound h = elim (apply_commit_cases a b k s c h) [
  | inl e ↦ subst (λ c. Unseen ts a c u) (sym e) (Unseen-refl ts a u)
  | inr (l, g, same, e) ↦
      let (raw, o, n, is) = own_lock a k l v g in
      let rec = commit_record l.op s in
      let fit : IsVersion (c, rec) =
        subst (λ r. IsVersion (c, r))
          (λ i. commit_record (is i).op ((ap (λ (x : LockRecord). x.start_ts) is ∙ same) i))
          (made-IsVersion a k c raw v o
            (omega (arith, same, ap (λ (x : LockRecord). x.start_ts) is)) bound) in
      subst (λ c. Unseen ts a c u) e
        (Unseen-trans u (put_write-Unseen a ts k u c rec v fit late)
          (drop_lock-Unseen _ ts k u (insert-IsSorted a _ _ v.sorted)))
]

unlock-Unseen :
    (ts : ℕ) (a : Contents) (k : List ℕ) (s : ℕ) (l : Option LockRecord) (u : List ℕ)
    → IsSorted a
    → ts < s
    → s < 2 ^ 64
    → Unseen ts a (unlock a k s l) u
unfolding unlock
unlock-Unseen ts a k s none u o late bound = Unseen-refl ts a u
unlock-Unseen ts a k s (some l) u o late bound = elim (Bool-cases (l.start_ts == s)) [
  | inl e ↦ rw e (
      Unseen-trans u (drop_lock-Unseen a ts k u o)
        (drop_data-Unseen _ ts k u s (remove-IsSorted a _ o) bound late))
  | inr e ↦ rw e (Unseen-refl ts a u)
]

rollback-Unseen :
    (ts : ℕ) (a b : Contents) (k : List ℕ) (s : ℕ) (u : List ℕ)
    → IsStore a
    → ts < s
    → s < 2 ^ 64
    → apply_rollback a k s ≡ done b
    → Unseen ts a b u
rollback-Unseen ts a b k s u v late bound h =
    let (l, g, free, e) = apply_rollback_cases a b k s v h in
    let first = unlock-Unseen ts a k s l u v.sorted late bound in
    elim e [
      | inl (same, _) ↦ subst (λ c. Unseen ts a c u) same first
      | inr same ↦
          subst (λ c. Unseen ts a c u) same
            (Unseen-trans u first (
              put_write-Unseen (unlock a k s l) ts k u s (marker_of s)
                (unlock-IsStore a k s v bound free l)
                (marker-IsVersion s (omega (arith, late)) bound) late))
    ]

pub Run-Unseen : {ts : ℕ} {a b : Contents} (u : List ℕ) → IsStore a → Run ts a b → Unseen ts a b u
Run-Unseen {ts} {a} u v here = Unseen-refl ts a u
Run-Unseen {ts} u v (next r s) = Unseen-trans u (Run-Unseen u v r) (one s (Run-IsStore v r))
  where
    one : {b c : Contents} → Step ts b c → IsStore b → Unseen ts b c u
    one (prewrite a b k x o s p w l i h) w' = prewrite-Unseen ts a b k x o s p w u w' l i h
    one (commit a b k s c l o t h) w' = commit-Unseen ts a b k s c u w' l o t h
    one (rollback a b k s l t h) w' = rollback-Unseen ts a b k s u w' l t h
