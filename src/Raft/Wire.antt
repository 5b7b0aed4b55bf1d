-- ===== src/Raft/Wire.antt =====
-- raft/wire.cc: the bytes of a Raft message.
pub mod RoundTrip
use flotilladb.Base.{
  ℕ, zero, suc, ◌+◌, Bool, true, false, not, ◌||◌, Option, none, some, List, [], ◌∷◌, ◌++◌,
}
use flotilladb.Base.{ltb, ◌==◌, if◌then◌else◌}
use flotilladb.Base.{length}
use flotilladb.Coding.{
  put_fixed8, put_fixed32, put_fixed64, put_length_prefixed, Decoder, decoder, Reader, ◌>>=◌, pure,
  u8, u32, u64, str, finished,
}
use flotilladb.Raft.Types.{
  LogEntry, Message, MsgKind, request_vote, request_vote_resp, append_entries, append_entries_resp,
  install_snapshot, install_snapshot_resp, blank,
}

-- The numbers of `enum class MsgKind : uint8_t`
unfoldable pub kind_code : MsgKind → ℕ
kind_code request_vote = 1
kind_code request_vote_resp = 2
kind_code append_entries = 3
kind_code append_entries_resp = 4
kind_code install_snapshot = 5
kind_code install_snapshot_resp = 6

-- `static_cast<MsgKind>(kind)`, which the code reaches for 1 to 6 only
unfoldable pub kind_of : ℕ → Option MsgKind
kind_of n =
    if n == 1
    then some request_vote
    else if n == 2
    then some request_vote_resp
    else if n == 3
    then some append_entries
    else if n == 4
    then some append_entries_resp
    else if n == 5
    then some install_snapshot
    else if n == 6
    then some install_snapshot_resp
    else none

unfoldable pub flag : Bool → ℕ
flag b = if b then 1 else 0

-- The loop of `EncodeMessage` over the entries
unfoldable pub encode_entries : List LogEntry → List ℕ
encode_entries [] = []
encode_entries (e ∷ es) =
    put_fixed64 e.term
    ++ (put_fixed64 e.index ++ (put_length_prefixed e.command ++ encode_entries es))

-- The fields of `EncodeMessage` behind the kind, in two parts
unfoldable pub encode_ballot : Message → List ℕ → List ℕ
encode_ballot m rest =
    put_fixed32 m.from
    ++ (put_fixed32 m.to
        ++ (put_fixed64 m.term
            ++ (put_fixed64 m.last_log_index
                ++ (put_fixed64 m.last_log_term ++ (put_fixed8 (flag m.granted) ++ rest)))))

unfoldable pub encode_append : Message → List ℕ → List ℕ
encode_append m rest =
    put_fixed64 m.prev_index
    ++ (put_fixed64 m.prev_term
        ++ (put_fixed64 m.commit
            ++ (put_fixed64 m.hb_seq
                ++ (put_fixed8 (flag m.success)
                    ++ (put_fixed64 m.match_index ++ (put_fixed64 m.hint_index ++ rest))))))

unfoldable pub encode_snapshot : Message → List ℕ → List ℕ
encode_snapshot m rest =
    put_fixed64 m.snap_index
    ++ (put_fixed64 m.snap_term ++ (put_length_prefixed m.snap_data ++ rest))

-- `EncodeMessage`
unfoldable pub encode_message : Message → List ℕ
encode_message m =
    put_fixed8 (kind_code m.kind)
    ++ encode_ballot m (
        encode_append m
          (encode_snapshot m (put_fixed32 (length m.entries) ++ encode_entries m.entries)))

unfoldable pub read_entry : Reader LogEntry
read_entry = do
  term ← u64
  index ← u64
  command ← str
  pure (record { term = term; index = index; command = command })

-- The loop of `DecodeMessage`: `count` rounds at most, while the decoder has not failed
unfoldable pub read_entries : ℕ → Reader (List LogEntry)
read_entries zero d = ([], d)
read_entries (suc count) d = elim d.failed [
  | true ↦ ([], d)
  | false ↦ (do e ← read_entry; es ← read_entries count; pure (e ∷ es)) d
]

-- The assignments to `*m`, part by part
unfoldable pub read_ballot : Message → Reader Message
read_ballot m = do
  from ← u32
  to ← u32
  term ← u64
  last_log_index ← u64
  last_log_term ← u64
  granted ← u8
  pure (record m {
    from = from;
    to = to;
    term = term;
    last_log_index = last_log_index;
    last_log_term = last_log_term;
    granted = not (granted == 0);
  })

unfoldable pub read_append : Message → Reader Message
read_append m = do
  prev_index ← u64
  prev_term ← u64
  commit ← u64
  hb_seq ← u64
  success ← u8
  match_index ← u64
  hint_index ← u64
  pure (record m {
    prev_index = prev_index;
    prev_term = prev_term;
    commit = commit;
    hb_seq = hb_seq;
    success = not (success == 0);
    match_index = match_index;
    hint_index = hint_index;
  })

unfoldable pub read_snapshot : Message → Reader Message
read_snapshot m = do
  snap_index ← u64
  snap_term ← u64
  snap_data ← str
  pure (record m { snap_index = snap_index; snap_term = snap_term; snap_data = snap_data })

unfoldable pub read_body : Message → Reader Message
read_body m = do
  ballot ← read_ballot m
  append ← read_append ballot
  snapshot ← read_snapshot append
  count ← u32
  entries ← read_entries count
  pure (record snapshot { entries = entries })

unfoldable pub check_message : Message × Decoder → Option Message
check_message (m, d) = if finished d then some m else none

unfoldable pub decode_kind : Option MsgKind → Decoder → Option Message
decode_kind none d = none
decode_kind (some kind) d = check_message (read_body (blank kind 0) d)

-- `DecodeMessage`
unfoldable pub decode_message : List ℕ → Option Message
decode_message xs = let kind = u8 (decoder xs) in decode_kind (kind_of kind.0) kind.1
