-- ===== src/Raft/Wire/RoundTrip.antt =====
-- What raft/wire.cc encodes it decodes.
use flotilladb.Base.{ℕ, suc, ◌^◌, ◌<◌, ◌≡◌, refl}
use flotilladb.Base.{Bool, true, false, not, some, List, [], ◌∷◌, ◌++◌}
use flotilladb.Base.{arith, ◌==◌}
use flotilladb.Base.{length, All}
use flotilladb.Coding.{put_fixed32, decoder, finished, ◌>>=◌, pure}
use flotilladb.Coding.RoundTrip.{u8-put, u32-put, u64-put, str-put}
use flotilladb.Raft.Types.{
  LogEntry, Message, MsgKind, request_vote, request_vote_resp, append_entries, append_entries_resp,
  install_snapshot, install_snapshot_resp, blank,
}
use flotilladb.Raft.Wire.{
  kind_code, kind_of, flag, encode_entries, encode_ballot, encode_append, encode_snapshot,
  encode_message, read_entry, read_entries, read_ballot, read_append, read_snapshot, read_body,
  check_message, decode_kind, decode_message,
}

-- The fields of an entry fit their widths.
pub record EntryFits (e : LogEntry) : Type 0 where
  pub term : e.term < 2 ^ 64
  pub index : e.index < 2 ^ 64
  pub command : length e.command < 2 ^ 32

-- The fields of a message fit their widths.
pub record MessageFits (m : Message) : Type 0 where
  pub from : m.from < 2 ^ 32
  pub to : m.to < 2 ^ 32
  pub term : m.term < 2 ^ 64
  pub last_log_index : m.last_log_index < 2 ^ 64
  pub last_log_term : m.last_log_term < 2 ^ 64
  pub prev_index : m.prev_index < 2 ^ 64
  pub prev_term : m.prev_term < 2 ^ 64
  pub commit : m.commit < 2 ^ 64
  pub hb_seq : m.hb_seq < 2 ^ 64
  pub match_index : m.match_index < 2 ^ 64
  pub hint_index : m.hint_index < 2 ^ 64
  pub snap_index : m.snap_index < 2 ^ 64
  pub snap_term : m.snap_term < 2 ^ 64
  pub snap_data : length m.snap_data < 2 ^ 32
  pub count : length m.entries < 2 ^ 32
  pub entries : All EntryFits m.entries

flag-lt : (b : Bool) → flag b < 2 ^ 8
unfolding flag
flag-lt true = omega arith
flag-lt false = omega arith

flag_back : (b : Bool) → not (flag b == 0) ≡ b
unfolding flag
flag_back true = refl
flag_back false = refl

kind_code-lt : (k : MsgKind) → kind_code k < 2 ^ 8
unfolding kind_code
kind_code-lt request_vote = omega arith
kind_code-lt request_vote_resp = omega arith
kind_code-lt append_entries = omega arith
kind_code-lt append_entries_resp = omega arith
kind_code-lt install_snapshot = omega arith
kind_code-lt install_snapshot_resp = omega arith

kind_of-code : (k : MsgKind) → kind_of (kind_code k) ≡ some k
unfolding kind_code kind_of
kind_of-code request_vote = refl
kind_of-code request_vote_resp = refl
kind_of-code append_entries = refl
kind_of-code append_entries_resp = refl
kind_of-code install_snapshot = refl
kind_of-code install_snapshot_resp = refl

read_ballot-encode :
    (m n : Message) (rest : List ℕ)
    → MessageFits m
    → read_ballot n (decoder (encode_ballot m rest)) ≡ (
      record n {
        from = m.from;
        to = m.to;
        term = m.term;
        last_log_index = m.last_log_index;
        last_log_term = m.last_log_term;
        granted = m.granted;
      },
      decoder rest,
    )
unfolding read_ballot encode_ballot
read_ballot-encode m n rest f =
    rw
      (
        u32-put m.from _ f.from,
        u32-put m.to _ f.to,
        u64-put m.term _ f.term,
        u64-put m.last_log_index _ f.last_log_index,
        u64-put m.last_log_term _ f.last_log_term,
        u8-put (flag m.granted) rest (flag-lt m.granted),
        flag_back m.granted,
      )
      refl

read_append-encode :
    (m n : Message) (rest : List ℕ)
    → MessageFits m
    → read_append n (decoder (encode_append m rest)) ≡ (
      record n {
        prev_index = m.prev_index;
        prev_term = m.prev_term;
        commit = m.commit;
        hb_seq = m.hb_seq;
        success = m.success;
        match_index = m.match_index;
        hint_index = m.hint_index;
      },
      decoder rest,
    )
unfolding read_append encode_append
read_append-encode m n rest f =
    rw
      (
        u64-put m.prev_index _ f.prev_index,
        u64-put m.prev_term _ f.prev_term,
        u64-put m.commit _ f.commit,
        u64-put m.hb_seq _ f.hb_seq,
        u8-put (flag m.success) _ (flag-lt m.success),
        flag_back m.success,
        u64-put m.match_index _ f.match_index,
        u64-put m.hint_index rest f.hint_index,
      )
      refl

read_snapshot-encode :
    (m n : Message) (rest : List ℕ)
    → MessageFits m
    → read_snapshot n (decoder (encode_snapshot m rest)) ≡ (
      record n { snap_index = m.snap_index; snap_term = m.snap_term; snap_data = m.snap_data },
      decoder rest,
    )
unfolding read_snapshot encode_snapshot
read_snapshot-encode m n rest f =
    rw
      (
        u64-put m.snap_index _ f.snap_index,
        u64-put m.snap_term _ f.snap_term,
        str-put m.snap_data rest f.snap_data,
      )
      refl

read_entries_more :
    (n : ℕ) (xs : List ℕ)
    → read_entries (suc n) (decoder xs)
      ≡ (do e ← read_entry; es ← read_entries n; pure (e ∷ es)) (decoder xs)
unfolding read_entries decoder
read_entries_more n xs = refl

read_entries-encode :
    (es : List LogEntry)
    → All EntryFits es
    → read_entries (length es) (decoder (encode_entries es)) ≡ (es, decoder [])
unfolding read_entries encode_entries read_entry
read_entries-encode [] f = refl
read_entries-encode (e ∷ es) f =
    rw
      (
        read_entries_more (length es) (encode_entries (e ∷ es)),
        u64-put e.term _ f.0.term,
        u64-put e.index _ f.0.index,
        str-put e.command _ f.0.command,
        read_entries-encode es f.1,
      )
      refl

read_body-encode :
    (m n : Message)
    → MessageFits m
    → read_body n (
        decoder (
          encode_ballot m (
            encode_append m
              (encode_snapshot m (put_fixed32 (length m.entries) ++ encode_entries m.entries)))))
      ≡ (record m { kind = n.kind }, decoder [])
unfolding read_body
read_body-encode m n f =
    rw
      (
        read_ballot-encode m n _ f,
        read_append-encode m _ _ f,
        read_snapshot-encode m _ _ f,
        u32-put (length m.entries) _ f.count,
        read_entries-encode m.entries f.entries,
      )
      refl

complete : (m : Message) → check_message (m, decoder []) ≡ some m
unfolding check_message finished decoder
complete m = refl

-- A message whose fields fit their widths is decoded as it was encoded: each kind, with any
-- entries and snapshot.
pub decode_message-encode_message :
    (m : Message) → MessageFits m → decode_message (encode_message m) ≡ some m
unfolding decode_message encode_message decode_kind
decode_message-encode_message m f =
    rw
      (
        u8-put (kind_code m.kind) _ (kind_code-lt m.kind),
        kind_of-code m.kind,
        read_body-encode m (blank m.kind 0) f,
        complete m,
      )
      refl
