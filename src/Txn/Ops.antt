-- ===== src/Txn/Ops.antt =====
-- txn/txn_ops.cc: the operations of a transaction on one key, over the contents of the store.
use flotilladb.Base.{
  ℕ, ◌-◌, ◌^◌, max, Bool, true, false, not, ◌||◌, Option, none, some, List, [], ◌∷◌, ◌++◌, ltb, leb,
  ◌==◌, if◌then◌else◌,
}
use flotilladb.Base.Texts.{codes, decimal}
use flotilladb.Status.{Result, done, failed, failure, corruption, aborted, conflict, ◌>>=◌}
use flotilladb.Store.{Contents, find, insert, remove, seek}
use flotilladb.Txn.Codec.{
  LockRecord, WriteRecord, lock_key, write_key, data_key, parse_write_key, same_bytes, encode_lock,
  decode_lock, encode_write, decode_write,
}

-- The loop of `ForEachWriteAtOrBelow` over what the iterator yields. The callback works on the
-- variables `s` that it captures, and says whether to continue.
unfoldable pub for_each_write :
    {S : Type 0} → Contents → List ℕ → (ℕ → WriteRecord → S → S × Bool) → S → Result S
for_each_write [] key fn s = done s
for_each_write ((k, v) ∷ it) key fn s = elim (parse_write_key k) [
  | none ↦ done s
  | some (user_key, commit_ts) ↦ elim (same_bytes user_key key) [
    | false ↦ done s
    | true ↦ elim (decode_write v) [
      | none ↦ failed (failure corruption (codes "bad write record"))
      | some rec ↦
          let next = fn commit_ts rec s in
          elim next.1 [ true ↦ for_each_write it key fn next.0 | false ↦ done next.0 ]
    ]
  ]
]

-- `ForEachWriteAtOrBelow`
unfoldable pub for_each_write_at_or_below :
    {S : Type 0} → Contents → List ℕ → ℕ → (ℕ → WriteRecord → S → S × Bool) → S → Result S
for_each_write_at_or_below db key ts fn s = for_each_write (seek db (write_key key ts)) key fn s

unfoldable pub lock_in : Option (List ℕ) → Result (Option LockRecord)
lock_in none = done none
lock_in (some raw) = elim (decode_lock raw) [
  | none ↦ failed (failure corruption (codes "bad lock record"))
  | some lock ↦ done (some lock)
]

-- `GetLock`
unfoldable pub get_lock : Contents → List ℕ → Result (Option LockRecord)
get_lock db key = lock_in (find db (lock_key key))

-- `newest_commit` and `rollback_here` of `ApplyPrewrite`, and its callback
abbrev pub Seen : Type 0
Seen = ℕ × Bool

unfoldable pub see_write : ℕ → ℕ → WriteRecord → Seen → Seen × Bool
see_write start_ts commit_ts rec (newest_commit, rollback_here) =
    if rec.kind == 3
    then ((newest_commit, rollback_here || rec.start_ts == start_ts), ltb start_ts commit_ts)
    else ((max newest_commit commit_ts, rollback_here), false)

-- UINT64_MAX
abbrev pub max_ts : ℕ
max_ts = 2 ^ 64 - 1

-- The end of `ApplyPrewrite`: no lock stands in the way, or a lock
unfoldable pub place_lock :
    Contents
    → (key value : List ℕ) → (op start_ts : ℕ) → (primary : List ℕ) → (wall_ms : ℕ)
    → Option LockRecord
    → Result Contents
place_lock db key value op start_ts primary wall_ms (some existing) =
    if existing.start_ts == start_ts
    then done db
    else failed (
        failure conflict (
          codes "locked by txn "
          ++ decimal existing.start_ts
          ++ codes " primary "
          ++ existing.primary))
place_lock db key value op start_ts primary wall_ms none =
    let lock : LockRecord = record {
      start_ts = start_ts;
      op = op;
      wall_ms = wall_ms;
      primary = primary;
    } in
    let locked = insert db (lock_key key) (encode_lock lock) in
    done (if op == 1 then insert locked (data_key key start_ts) value else locked)

-- `ApplyPrewrite` behind the search for conflicting writes
unfoldable pub prewrite_after :
    Contents
    → (key value : List ℕ) → (op start_ts : ℕ) → (primary : List ℕ) → (wall_ms : ℕ) → Seen
    → Result Contents
prewrite_after db key value op start_ts primary wall_ms (newest_commit, rollback_here) =
    if rollback_here
    then failed (failure aborted (codes "transaction rolled back"))
    else if leb start_ts newest_commit
    then failed (failure conflict (codes "write conflict: committed at " ++ decimal newest_commit))
    else (get_lock db key >>= place_lock db key value op start_ts primary wall_ms)

-- `ApplyPrewrite`: the store behind it, or the status that is not OK (the store is then unchanged)
unfoldable pub apply_prewrite :
    Contents
    → (key value : List ℕ) → (op start_ts : ℕ) → (primary : List ℕ) → (wall_ms : ℕ)
    → Result Contents
apply_prewrite db key value op start_ts primary wall_ms =
    for_each_write_at_or_below db key max_ts (see_write start_ts) (0, false)
    >>= prewrite_after db key value op start_ts primary wall_ms

-- `*commit_ts` and `*rolled_back` of `FindTxnOutcome`, and its callback
abbrev pub Outcome : Type 0
Outcome = ℕ × Bool

unfoldable pub match_outcome : ℕ → ℕ → WriteRecord → Outcome → Outcome × Bool
match_outcome start_ts cts rec (commit_ts, rolled_back) =
    if rec.start_ts == start_ts
    then (if rec.kind == 3 then ((commit_ts, true), false) else ((cts, rolled_back), false))
    else ((commit_ts, rolled_back), ltb start_ts cts)

-- `FindTxnOutcome`
unfoldable pub find_txn_outcome : Contents → List ℕ → ℕ → Result Outcome
find_txn_outcome db key start_ts =
    for_each_write_at_or_below db key max_ts (match_outcome start_ts) (0, false)

-- `ApplyCommit` where the lock is another transaction's or gone
unfoldable pub history_verdict : Contents → Outcome → Result Contents
history_verdict db (existing_commit, rolled_back) =
    if not (existing_commit == 0)
    then done db
    else if rolled_back
    then failed (failure aborted (codes "transaction rolled back"))
    else failed (failure aborted (codes "lock lost before commit"))

unfoldable pub consult_history : Contents → List ℕ → ℕ → Result Contents
consult_history db key start_ts = find_txn_outcome db key start_ts >>= history_verdict db

unfoldable pub finish_commit : Contents → List ℕ → ℕ → ℕ → Option LockRecord → Result Contents
finish_commit db key start_ts commit_ts none = consult_history db key start_ts
finish_commit db key start_ts commit_ts (some lock) =
    if not (lock.start_ts == start_ts)
    then consult_history db key start_ts
    else done (
        remove
          (insert db (write_key key commit_ts)
            (encode_write (record { kind = if lock.op == 2 then 2 else 1; start_ts = start_ts })))
          (lock_key key))

-- `ApplyCommit`
unfoldable pub apply_commit : Contents → List ℕ → ℕ → ℕ → Result Contents
apply_commit db key start_ts commit_ts = do
  lock ← get_lock db key
  finish_commit db key start_ts commit_ts lock

-- The removal of the transaction's own lock in `ApplyRollback`
unfoldable pub unlock : Contents → List ℕ → ℕ → Option LockRecord → Contents
unlock db key start_ts none = db
unlock db key start_ts (some lock) =
    if lock.start_ts == start_ts
    then remove (remove db (lock_key key)) (data_key key start_ts)
    else db

-- `ApplyRollback` behind its two readings
unfoldable pub rollback_after :
    Contents → List ℕ → ℕ → Option LockRecord → Outcome → Result Contents
rollback_after db key start_ts lock (existing_commit, rolled_back) =
    let unlocked = unlock db key start_ts lock in
    if not (existing_commit == 0)
    then failed (failure conflict (codes "transaction already committed"))
    else if rolled_back
    then done unlocked
    else done (
        insert unlocked (write_key key start_ts)
          (encode_write (record { kind = 3; start_ts = start_ts })))

-- `ApplyRollback`
unfoldable pub apply_rollback : Contents → List ℕ → ℕ → Result Contents
apply_rollback db key start_ts = do
  lock ← get_lock db key
  outcome ← find_txn_outcome db key start_ts
  rollback_after db key start_ts lock outcome

-- What `TxnReadResult` says: blocked by a lock, a value, or nothing
pub data ReadResult : Type 0 where
  locked : LockRecord → ReadResult
  found : List ℕ → ReadResult
  missing : ReadResult

-- `data_ts` and `deleted` of `TxnGet`, and its callback
abbrev pub Chosen : Type 0
Chosen = ℕ × Bool

unfoldable pub choose_write : ℕ → WriteRecord → Chosen → Chosen × Bool
choose_write commit_ts rec (data_ts, deleted) =
    if rec.kind == 3
    then ((data_ts, deleted), true)
    else if rec.kind == 2
    then ((data_ts, true), false)
    else ((rec.start_ts, deleted), false)

unfoldable pub value_in : Option (List ℕ) → Result ReadResult
value_in none = failed (failure corruption (codes "missing data record"))
value_in (some value) = done (found value)

-- `TxnGet` behind the test of the lock
unfoldable pub read_chosen : Contents → List ℕ → Chosen → Result ReadResult
read_chosen db key (data_ts, deleted) =
    if deleted || data_ts == 0 then done missing else value_in (find db (data_key key data_ts))

unfoldable pub read_version : Contents → List ℕ → ℕ → Result ReadResult
read_version db key ts =
    for_each_write_at_or_below db key ts choose_write (0, false) >>= read_chosen db key

unfoldable pub read_unless : Contents → List ℕ → ℕ → Option LockRecord → Result ReadResult
read_unless db key ts none = read_version db key ts
read_unless db key ts (some lock) =
    if leb lock.start_ts ts then done (locked lock) else read_version db key ts

-- `TxnGet`
unfoldable pub txn_get : Contents → List ℕ → ℕ → Result ReadResult
txn_get db key ts = do lock ← get_lock db key; read_unless db key ts lock
