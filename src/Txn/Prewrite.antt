-- ===== src/Txn/Prewrite.antt =====
-- `ApplyPrewrite` of txn/txn_ops.cc: what it needs of the history, and that it keeps the store well
-- formed.
use flotilladb.Base.{ℕ, ◌<◌, ◌≡◌, refl, sym, subst}
use flotilladb.Base.{◌≢◌, ◌⊎◌, inl, inr, Bool, true, false, Option, none, some, List}
use flotilladb.Base.{arith, leb, ◌==◌, Bool-cases, Option-cases}
use flotilladb.Base.{All}
use flotilladb.Status.{done, >>=-eq-done}
use flotilladb.Store.{Contents, find, insert}
use flotilladb.Txn.Codec.{LockRecord, lock_key, data_key, encode_lock}
use flotilladb.Txn.Ops.{see_write, get_lock, place_lock, prewrite_after, apply_prewrite}
use flotilladb.Txn.History.{versions}
use flotilladb.Txn.History.Walk.{fold_until}
use flotilladb.Txn.Locks.{search_all, get_lock-some, get_lock-none}
use flotilladb.Txn.Placing.{IsPrewrite, lock_only-IsStore, lock_and_value-IsStore}
use flotilladb.Txn.Searches.{versions-Descends, Free, see_write_sound}
use flotilladb.Txn.Valid.{IsStore}

-- What the search of a successful prewrite leaves in its variables
pub prewrite_passes :
    (db db' : Contents) (key value : List ℕ) (op start_ts : ℕ) (primary : List ℕ) (wall_ms : ℕ)
    → IsStore db
    → apply_prewrite db key value op start_ts primary wall_ms ≡ done db'
    → ((fold_until (see_write start_ts) (0, false) (versions db key)).1 ≡ false)
      × ((fold_until (see_write start_ts) (0, false) (versions db key)).0 < start_ts)
unfolding apply_prewrite prewrite_after
prewrite_passes db db' key value op start_ts primary wall_ms v h =
    go (fold_until (see_write start_ts) (0, false) (versions db key))
      (rw (search_all db key (see_write start_ts) (0, false) v) at h)
  where
    go :
        (s : ℕ × Bool)
        → prewrite_after db key value op start_ts primary wall_ms s ≡ done db'
        → (s.1 ≡ false) × (s.0 < start_ts)
    go (n, true) e = cc e
    go (n, false) e = (refl, ground arith)

-- A prewrite on a well-formed store succeeds only where no commit of the key is at or after its
-- start, and where the key has no rollback marker of its transaction.
pub apply_prewrite-Free :
    (db db' : Contents) (key value : List ℕ) (op start_ts : ℕ) (primary : List ℕ) (wall_ms : ℕ)
    → IsStore db
    → apply_prewrite db key value op start_ts primary wall_ms ≡ done db'
    → All (Free start_ts) (versions db key)
apply_prewrite-Free db db' key value op start_ts primary wall_ms v h =
    let facts = prewrite_passes db db' key value op start_ts primary wall_ms v h in
    see_write_sound start_ts (versions db key) (versions-Descends db key v.sorted v.writes)
      (v.keys key).fit facts.0 facts.1

-- A prewrite leaves the store as it is, or puts a lock where there was none.
pub apply_prewrite_cases :
    (db db' : Contents) (key value : List ℕ) (op start_ts : ℕ) (primary : List ℕ) (wall_ms : ℕ)
    → IsStore db
    → apply_prewrite db key value op start_ts primary wall_ms ≡ done db'
    → ((db' ≡ db) × (find db (lock_key key) ≢ none))
      ⊎ ((find db (lock_key key) ≡ none)
          × (place_lock db key value op start_ts primary wall_ms none ≡ done db'))
unfolding apply_prewrite prewrite_after
apply_prewrite_cases db db' key value op start_ts primary wall_ms v h =
    let after : prewrite_after db key value op start_ts primary wall_ms
          (fold_until (see_write start_ts) (0, false) (versions db key))
        ≡ done db' =
      rw (search_all db key (see_write start_ts) (0, false) v) at h in
    go (fold_until (see_write start_ts) (0, false) (versions db key)) after
  where
    place :
        (l : Option LockRecord)
        → get_lock db key ≡ done l
        → place_lock db key value op start_ts primary wall_ms l ≡ done db'
        → ((db' ≡ db) × (find db (lock_key key) ≢ none))
          ⊎ ((find db (lock_key key) ≡ none)
              × (place_lock db key value op start_ts primary wall_ms none ≡ done db'))
    place none g e = elim (Option-cases (find db (lock_key key))) [
      | inl n ↦ inr (n, e)
      | inr (raw, n) ↦ cc (g, get_lock-some db key raw n ((v.keys key).locks raw n))
    ]
    place (some l) g e = elim (Bool-cases (l.start_ts == start_ts)) [
      | inl p ↦ inl ((unfold place_lock in ground arith), (λ n. cc (g, get_lock-none db key n)))
      | inr p ↦ absurd (unfold place_lock in ground arith)
    ]

    go :
        (s : ℕ × Bool)
        → prewrite_after db key value op start_ts primary wall_ms s ≡ done db'
        → ((db' ≡ db) × (find db (lock_key key) ≢ none))
          ⊎ ((find db (lock_key key) ≡ none)
              × (place_lock db key value op start_ts primary wall_ms none ≡ done db'))
    go (n, true) e = cc e
    go (n, false) e = elim (Bool-cases (leb start_ts n)) [
      | inl p ↦ cc (rw (p, prewrite_after) at e)
      | inr p ↦
          let rest =
            >>=-eq-done (get_lock db key) (place_lock db key value op start_ts primary wall_ms)
              (rw (p, prewrite_after) at e) in
          place rest.0 rest.1 rest.2
    ]

-- A prewrite keeps the store well formed.
pub apply_prewrite-IsStore :
    (db db' : Contents) (key value : List ℕ) (op start_ts : ℕ) (primary : List ℕ) (wall_ms : ℕ)
    → IsStore db
    → IsPrewrite op start_ts primary wall_ms
    → apply_prewrite db key value op start_ts primary wall_ms ≡ done db'
    → IsStore db'
apply_prewrite-IsStore db db' key value op start_ts primary wall_ms v p h =
    elim (apply_prewrite_cases db db' key value op start_ts primary wall_ms v h) [
      | inl e ↦ subst IsStore (sym e.0) v
      | inr (n, e) ↦ put (apply_prewrite-Free db db' key value op start_ts primary wall_ms v h) e
    ]
  where
    lock : LockRecord
    lock = record { start_ts = start_ts; op = op; wall_ms = wall_ms; primary = primary }

    put :
        All (Free start_ts) (versions db key)
        → place_lock db key value op start_ts primary wall_ms none ≡ done db'
        → IsStore db'
    put free e = elim (Bool-cases (op == 1)) [
      | inl q ↦
          let c =
            insert (insert db (lock_key key) (encode_lock lock)) (data_key key start_ts) value in
          let same : c ≡ db' = unfold place_lock in (cc (rw q at e)) in
          subst IsStore same (lock_and_value-IsStore db key lock v p free value)
      | inr q ↦
          let c = insert db (lock_key key) (encode_lock lock) in
          let same : c ≡ db' = unfold place_lock in (cc (rw q at e)) in
          subst IsStore same (lock_only-IsStore db key lock v p free (ground arith))
    ]
