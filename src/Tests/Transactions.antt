-- ===== src/Tests/Transactions.antt =====
-- Tests of the transaction operations, and their theorems at concrete inputs.
use flotilladb.Base.{
  sym, ap, ◌∙◌, ℕ, ◌≤◌, ◌≡◌, refl, inl, false, Option, none, some, List, [], ◌∷◌, All, arith,
  length,
}
use flotilladb.Base.Bytes.{less}
use flotilladb.Coding.{
  finished, u64, take_or, u8, decoder, decode_fixed8, bytes, decode_bytes, decode_fixed32,
  decode_fixed64, str, u32, put_fixed8, put_fixed64, put_fixed32, put_length_prefixed, put_bytes,
}
use flotilladb.Base.Texts.{codes}
use flotilladb.Txn.Replay.{interrupted, committed_after, replay_loses_value}
use flotilladb.Status.{done, failed, failure, corruption}
use flotilladb.Store.{Contents, find, insert, remove, seek}
use flotilladb.Store.Laws.{find-insert_self, find-insert_other}
use flotilladb.Txn.Codec.RoundTrip.{LockFits, decode_lock-encode_lock}
use flotilladb.Txn.Keys.{lock_key-ne-data_key, lock_key-ne-write_key}
use flotilladb.Txn.History.Update.{insert_version}
use flotilladb.Txn.Marker.{marker-IsStore, marker-IsVersion}
use flotilladb.Txn.Scan.{
  ScanResult, IsRow, txn_scan, scan_locks, scan_unless, scan_writes, seek_target, past_end, is_last,
  txn_scan_sound,
}
use flotilladb.Txn.Writes.{put_write_history}
use flotilladb.Txn.Codec.{
  decode_lock, decode_write, parse_write_key, parse_suffix, unescape_key, unescape_from, same_bytes,
  read_inverted_ts, read_big_endian, escape_key, escape_bytes, inverted_ts, big_endian, LockRecord,
  lock_key, write_key, data_key, encode_lock, encode_write,
}
use flotilladb.Txn.Ops
use flotilladb.Txn.Ops.{
  apply_prewrite, apply_commit, apply_rollback, txn_get, get_lock, see_write,
  for_each_write_at_or_below, found, missing,
}
use flotilladb.Txn.History.{versions}
use flotilladb.Txn.History.Walk.{fold_until, at_or_below}
use flotilladb.Txn.History.Search.{search_history}
use flotilladb.Txn.Placing.{IsPrewrite}
use flotilladb.Txn.Locks.{search_all, get_lock-none}
use flotilladb.Txn.Prewrite.{apply_prewrite-Free, apply_prewrite-IsStore}
use flotilladb.Txn.Run.{Run, Run-IsStore, here, next, prewrite, commit}
use flotilladb.Txn.Reads.{snapshot, seen_at, txn_get_seen}
use flotilladb.Txn.Snapshots.{txn_get_stable}
use flotilladb.Txn.Visible.{commit_visible}
use flotilladb.Txn.Searches.{Free}
use flotilladb.Txn.Valid.{IsStore}

abbrev pub key : List ℕ
key = 107 ∷ []

abbrev pub value : List ℕ
value = 118 ∷ 0 ∷ []

abbrev pub lock : LockRecord
lock = record { start_ts = 5; op = 1; wall_ms = 3; primary = key }

-- The store behind a prewrite at 5
abbrev pub prewritten : Contents
prewritten = insert (insert [] (lock_key key) (encode_lock lock)) (data_key key 5) value

-- and behind the commit at 7
abbrev pub committed : Contents
committed =
    remove (insert prewritten (write_key key 7) (encode_write (record { kind = 1; start_ts = 5 })))
      (lock_key key)

pub empty-IsStore : IsStore []
unfolding versions find
empty-IsStore = record {
  sorted = tt;
  writes = tt;
  keys = λ u. record { fit = tt; disjoint = tt; valued = tt; locks = λ raw e. cc e };
}

fits : IsPrewrite 1 5 key 3
fits = record {
  op = inl refl;
  positive = omega arith;
  bound = omega arith;
  primary = omega arith;
  wall_ms = omega arith;
}

prewrite_run : apply_prewrite [] key value 1 5 key 3 ≡ done prewritten
unfolding apply_prewrite Ops.prewrite_after Ops.for_each_write_at_or_below Ops.for_each_write seek
    get_lock Ops.lock_in find Ops.place_lock insert
prewrite_run = refl

lock_fits : LockFits lock
lock_fits = record {
  start_ts = omega arith;
  op = omega arith;
  wall_ms = omega arith;
  primary = omega arith;
}

pub lock_run : get_lock prewritten key ≡ done (some lock)
unfolding get_lock Ops.lock_in
lock_run =
    ap Ops.lock_in (
      find-insert_other _ _ _ _ (λ e. lock_key-ne-data_key key key 5 (sym e))
      ∙ find-insert_self [] (lock_key key) (encode_lock lock))
    ∙ rw (Ops.lock_in, decode_lock-encode_lock lock lock_fits) refl

pub commit_run : apply_commit prewritten key 5 7 ≡ done committed
unfolding apply_commit Ops.finish_commit
commit_run = rw lock_run refl

run : Run 4 [] committed
run =
    next (next here (prewrite [] prewritten key value 1 5 key 3 (omega arith) fits prewrite_run))
      (commit prewritten committed key 5 7 (omega arith) (omega arith) (omega arith) commit_run)

Run-IsStore_example : IsStore committed
Run-IsStore_example = Run-IsStore empty-IsStore run

-- A read below the transaction's timestamps
read_run : txn_get [] key 4 ≡ done missing
unfolding txn_get get_lock find Ops.lock_in Ops.read_unless Ops.read_version
    Ops.for_each_write_at_or_below Ops.for_each_write seek Ops.read_chosen
read_run = refl

txn_get_stable_example : txn_get committed key 4 ≡ done missing
txn_get_stable_example =
    txn_get_stable [] committed key 4 missing empty-IsStore (omega arith) run read_run (λ l e. cc e)

commit_visible_example : txn_get committed key 20 ≡ done (found value)
commit_visible_example =
    commit_visible [] prewritten committed key value 5 7 20 key 3 empty-IsStore fits
      (unfold find in refl) (omega arith) (omega arith) (omega arith) prewrite_run commit_run

pub prewritten-IsStore : IsStore prewritten
prewritten-IsStore =
    apply_prewrite-IsStore [] prewritten key value 1 5 key 3 empty-IsStore fits prewrite_run

txn_get_seen_example :
    (l : Option LockRecord) × (get_lock prewritten key ≡ done l)
    × (txn_get prewritten key 6
        ≡ done (
            seen_at 6 l
              (λ t. find prewritten (data_key key t))
              (snapshot 6 (versions prewritten key))))
txn_get_seen_example = txn_get_seen prewritten key prewritten-IsStore 6 (omega arith)

-- The store behind a rollback at 5 that came before its prewrite
abbrev pub marked : Contents
marked = insert [] (write_key key 5) (encode_write (record { kind = 3; start_ts = 5 }))

pub rollback_run : apply_rollback [] key 5 ≡ done marked
unfolding apply_rollback get_lock find Ops.lock_in Ops.find_txn_outcome
    Ops.for_each_write_at_or_below Ops.for_each_write seek Ops.rollback_after Ops.unlock
rollback_run = refl

marked-IsStore : IsStore marked
marked-IsStore = marker-IsStore [] key 5 empty-IsStore (omega arith) (omega arith)

marked_history : versions marked key ≡ (5, record { kind = 3; start_ts = 5 }) ∷ []
unfolding versions insert_version
marked_history =
    put_write_history key 5 (record { kind = 3; start_ts = 5 })
      (marker-IsVersion 5 (omega arith) (omega arith)) [] tt tt

search_history_example :
    for_each_write_at_or_below marked key 9 (see_write 9) (0, false)
    ≡ done (fold_until (see_write 9) (0, false) (at_or_below 9 (versions marked key)))
search_history_example =
    search_history marked key 9 (see_write 9) (0, false) (omega arith) marked-IsStore.sorted
      marked-IsStore.writes

abbrev later_lock : LockRecord
later_lock = record { start_ts = 9; op = 2; wall_ms = 3; primary = key }

abbrev pub relocked : Contents
relocked = insert marked (lock_key key) (encode_lock later_lock)

pub later_run : apply_prewrite marked key value 2 9 key 3 ≡ done relocked
unfolding apply_prewrite Ops.prewrite_after get_lock find Ops.lock_in Ops.place_lock
later_run =
    rw (search_all marked key (see_write 9) (0, false) marked-IsStore, marked_history)
      (unfold fold_until see_write in (rw unlocked refl))
  where
    unlocked : get_lock marked key ≡ done none
    unlocked =
        get_lock-none marked key
          (find-insert_other [] _ _ _ (λ e. lock_key-ne-write_key key key 5 (sym e)))

apply_prewrite-Free_example : All (Free 9) (versions marked key)
apply_prewrite-Free_example =
    apply_prewrite-Free marked relocked key value 2 9 key 3 marked-IsStore later_run

-- A scan that finds the committed value
abbrev one_row : ScanResult
one_row = record { rows = (key, value) ∷ []; blocker = none }

scan_run : txn_scan committed key [] 20 10 ≡ done one_row
unfolding txn_scan scan_locks scan_unless scan_writes seek seek_target less insert remove lock_key
    write_key data_key escape_key escape_bytes inverted_ts big_endian encode_lock encode_write
    put_fixed8 put_fixed64 put_length_prefixed put_bytes put_fixed32 parse_write_key parse_suffix
    unescape_key unescape_from same_bytes read_inverted_ts read_big_endian past_end is_last txn_get
    get_lock Ops.lock_in find Ops.read_unless Ops.read_version for_each_write_at_or_below
    Ops.for_each_write decode_write finished u64 take_or u8 decoder decode_fixed8 Ops.choose_write
    Ops.read_chosen bytes decode_bytes decode_fixed32 decode_fixed64 str u32 decode_lock
    Ops.value_in
scan_run = refl

txn_scan_sound_example : All (IsRow committed [] 20) one_row.rows × (length one_row.rows ≤ 10)
txn_scan_sound_example = txn_scan_sound committed key [] 20 10 one_row scan_run

-- A crash between the two writes of the prewrite at 5
replay_loses_value_example :
    (prewritten ≡ insert (interrupted [] key lock) (data_key key 5) value)
    × (apply_prewrite (interrupted [] key lock) key value 1 5 key 3
        ≡ done (interrupted [] key lock))
    × (apply_commit (interrupted [] key lock) key 5 7 ≡ done (committed_after [] key lock 7))
    × (txn_get (committed_after [] key lock 7) key 20
        ≡ failed (failure corruption (codes "missing data record")))
replay_loses_value_example =
    replay_loses_value [] prewritten key value lock 7 20 empty-IsStore fits refl
      (unfold find in refl) (unfold find in refl) prewrite_run (omega arith) (omega arith)
      (omega arith)
