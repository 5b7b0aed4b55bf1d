-- ===== src/Tests/Outcomes.antt =====
-- The outcome of a transaction of txn/txn_ops.cc behind a later transaction on the same key.
use flotilladb.Base.{ℕ, ◌≡◌, ◌≢◌, refl, inr, List, [], arith}
use flotilladb.Base.Bytes.{less}
use flotilladb.Coding.{
  finished, u64, take_or, u8, decoder, decode_fixed8, bytes, decode_bytes, decode_fixed32,
  decode_fixed64, str, u32, put_fixed8, put_fixed64, put_fixed32, put_length_prefixed, put_bytes,
}
use flotilladb.Status.{done}
use flotilladb.Store.{Contents, find, insert, remove, seek}
use flotilladb.Tests.Transactions.{
  key, value, lock, prewritten, committed, marked, relocked, empty-IsStore, commit_run, lock_run,
  prewritten-IsStore, rollback_run, later_run,
}
use flotilladb.Txn.Codec.{
  LockRecord, decode_lock, decode_write, parse_write_key, parse_suffix, unescape_key, unescape_from,
  same_bytes, read_inverted_ts, read_big_endian, escape_key, escape_bytes, inverted_ts, big_endian,
  lock_key, write_key, data_key, encode_lock, encode_write,
}
use flotilladb.Txn.Ops
use flotilladb.Txn.Ops.{
  apply_prewrite, apply_commit, apply_rollback, get_lock, for_each_write_at_or_below, see_write,
}
use flotilladb.Txn.Final.{rollback_final, commit_final}
use flotilladb.Txn.Placing.{IsPrewrite}
use flotilladb.Txn.Run.{Run, here, next, prewrite}

later_fits : IsPrewrite 2 9 key 3
later_fits = record {
  op = inr refl;
  positive = omega arith;
  bound = omega arith;
  primary = omega arith;
  wall_ms = omega arith;
}

-- The prewrite of another transaction at 9, behind the rollback and behind the commit
abbrev marked_run : Run 0 marked relocked
marked_run =
    next here (prewrite marked relocked key value 2 9 key 3 (omega arith) later_fits later_run)

rollback_final_example :
    (apply_prewrite relocked key value 1 5 key 3 ≢ done relocked)
    × (apply_commit relocked key 5 7 ≢ done relocked)
rollback_final_example =
    rollback_final [] marked relocked key 5 empty-IsStore (omega arith) (omega arith) rollback_run
      marked_run (tt, tt) value 1 7 key 3 relocked

abbrev next_lock : LockRecord
next_lock = record { start_ts = 9; op = 2; wall_ms = 3; primary = key }

abbrev overwritten : Contents
overwritten = insert committed (lock_key key) (encode_lock next_lock)

overwrite_run : apply_prewrite committed key value 2 9 key 3 ≡ done overwritten
unfolding apply_prewrite Ops.prewrite_after see_write seek less insert remove lock_key write_key
    data_key escape_key escape_bytes inverted_ts big_endian encode_lock encode_write put_fixed8
    put_fixed64 put_length_prefixed put_bytes put_fixed32 parse_write_key parse_suffix unescape_key
    unescape_from same_bytes read_inverted_ts read_big_endian get_lock Ops.lock_in find
    for_each_write_at_or_below Ops.for_each_write decode_write finished u64 take_or u8 decoder
    decode_fixed8 Ops.place_lock bytes decode_bytes decode_fixed32 decode_fixed64 str u32
    decode_lock
overwrite_run = refl

abbrev committed_run : Run 0 committed overwritten
committed_run =
    next here
      (prewrite committed overwritten key value 2 9 key 3 (omega arith) later_fits overwrite_run)

commit_final_example :
    ((c : Contents) → apply_rollback overwritten key 5 ≢ done c)
    × ((value : List ℕ) (op : ℕ) (primary : List ℕ) (wall_ms : ℕ) (c : Contents)
        → apply_prewrite overwritten key value op 5 primary wall_ms ≢ done c)
    × ((again : ℕ) → apply_commit overwritten key 5 again ≡ done overwritten)
commit_final_example =
    commit_final prewritten committed overwritten key 5 7 lock prewritten-IsStore (omega arith)
      (omega arith) lock_run refl commit_run committed_run (tt, tt)
