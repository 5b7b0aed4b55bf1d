-- ===== src/Tests/Encoding.antt =====
-- Tests of the encodings and the write-ahead log, and their theorems at concrete inputs.
use flotilladb.Base.{ℕ, ◌≡◌, refl}
use flotilladb.Base.{true, some, List, [], ◌∷◌, ◌++◌}
use flotilladb.Base.{arith}
use flotilladb.Base.{length, take, drop}
use flotilladb.Coding.{put_bytes, put_fixed8, put_fixed32, put_fixed64, put_length_prefixed}
use flotilladb.Records.{frame}
use flotilladb.Wal
use flotilladb.Wal.{Entry, Op, encode_payload, append_record, recover_wal, op_code}
use flotilladb.Wal.Recovery.{Fits, write_all, recover_wal-write_all}
use flotilladb.Txn.Codec.{
  LockRecord, parse_write_key, escape_key, unescape_key, encode_lock, decode_lock, encode_write,
  decode_write, write_key,
}
use flotilladb.Base.Bytes.{less}
use flotilladb.Txn.Codec.Order.{write_key-less, write_key-newest}
use flotilladb.Txn.Codec.Parse.{parse_write_key-write_key}
use flotilladb.Raft.Types.{Message, blank, append_entries}
use flotilladb.Raft.Wire.{encode_message, decode_message}
use flotilladb.Raft.Wire.RoundTrip.{MessageFits, decode_message-encode_message}
use flotilladb.Txn.Codec.RoundTrip.{
  unescape_key-escape_key, decode_lock-encode_lock, decode_write-encode_write,
}

abbrev sample : Wal.Entry
sample = record { key = 107 ∷ []; seqno = 7; op = Wal.put; value = 118 ∷ 0 ∷ [] }

sample-Fits : Fits sample
unfolding encode_payload put_fixed8 put_fixed32 put_fixed64 put_length_prefixed put_bytes op_code
sample-Fits = record {
  seqno = omega arith;
  key = omega arith;
  value = omega arith;
  payload = omega arith;
}

recover_wal-write_all_example :
    recover_wal (some (write_all [] (sample ∷ sample ∷ []) ++ take 9 (append_record [] sample)))
    ≡ (sample ∷ sample ∷ [], some (write_all [] (sample ∷ sample ∷ [])))
recover_wal-write_all_example =
    recover_wal-write_all (sample ∷ sample ∷ []) sample (take 9 (append_record [] sample))
      (drop 9 (append_record [] sample)) (sample-Fits, (sample-Fits, tt)) sample-Fits
      (unfold append_record frame encode_payload put_fixed8 put_fixed32 put_fixed64
          put_length_prefixed put_bytes op_code in
        refl)
      (unfold append_record frame encode_payload put_fixed8 put_fixed32 put_fixed64
          put_length_prefixed put_bytes op_code in
        (omega arith))

abbrev short_key : List ℕ
short_key = 107 ∷ []

abbrev long_key : List ℕ
long_key = 107 ∷ 0 ∷ []

write_key-less_example :
    less (write_key short_key 9) (write_key long_key 4) ≡ less short_key long_key
write_key-less_example = write_key-less short_key long_key 9 4 (λ e. cc e)

write_key-newest_example : less (write_key short_key 9) (write_key short_key 4) ≡ true
write_key-newest_example = write_key-newest short_key 9 4 (omega arith) (omega arith)

unescape_key-escape_key_example :
    unescape_key (escape_key (1 ∷ 0 ∷ 2 ∷ []) ++ 0 ∷ 1 ∷ [])
    ≡ some (1 ∷ 0 ∷ 2 ∷ [], length (escape_key (1 ∷ 0 ∷ 2 ∷ [])))
unescape_key-escape_key_example = unescape_key-escape_key (1 ∷ 0 ∷ 2 ∷ []) (0 ∷ 1 ∷ [])

abbrev lock : LockRecord
lock = record { start_ts = 5; op = 1; wall_ms = 1000; primary = 107 ∷ [] }

decode_lock-encode_lock_example : decode_lock (encode_lock lock) ≡ some lock
decode_lock-encode_lock_example = decode_lock-encode_lock lock (record {
  start_ts = omega arith;
  op = omega arith;
  wall_ms = omega arith;
  primary = omega arith;
})

decode_write-encode_write_example :
    decode_write (encode_write (record { kind = 3; start_ts = 5 }))
    ≡ some (record { kind = 3; start_ts = 5 })
decode_write-encode_write_example =
    decode_write-encode_write (record { kind = 3; start_ts = 5 }) (omega arith) (omega arith)

parse_write_key-write_key_example :
    parse_write_key (write_key (107 ∷ 0 ∷ []) 9) ≡ some (107 ∷ 0 ∷ [], 9)
parse_write_key-write_key_example = parse_write_key-write_key (107 ∷ 0 ∷ []) 9 (omega arith)

abbrev sent : Message
sent = record (blank append_entries 2) {
  from = 1;
  term = 3;
  prev_index = 4;
  prev_term = 2;
  entries = record { term = 3; index = 5; command = 120 ∷ 0 ∷ [] } ∷ [];
}

sent-MessageFits : MessageFits sent
sent-MessageFits = record {
  from = omega arith;
  to = omega arith;
  term = omega arith;
  last_log_index = omega arith;
  last_log_term = omega arith;
  prev_index = omega arith;
  prev_term = omega arith;
  commit = omega arith;
  hb_seq = omega arith;
  match_index = omega arith;
  hint_index = omega arith;
  snap_index = omega arith;
  snap_term = omega arith;
  snap_data = omega arith;
  count = omega arith;
  entries = (record { term = omega arith; index = omega arith; command = omega arith }, tt);
}

decode_message-encode_message_example : decode_message (encode_message sent) ≡ some sent
decode_message-encode_message_example = decode_message-encode_message sent sent-MessageFits
