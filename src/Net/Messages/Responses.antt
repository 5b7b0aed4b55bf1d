-- ===== src/Net/Messages/Responses.antt =====
-- net/messages.cc: the bytes of a response, and the frames of Raft messages.
use flotilladb.Base.{ℕ, zero, suc, Bool, true, false, not, Option, none, some, List, [], ◌∷◌, ◌++◌}
use flotilladb.Base.{◌==◌, if◌then◌else◌, length}
use flotilladb.Coding.{
  put_fixed8, put_fixed32, put_fixed64, put_length_prefixed, decoder, Reader, ◌>>=◌, pure, u8, u32,
  u64, str,
}
use flotilladb.Net.Messages.{response, raft, type_code, Response}
use flotilladb.Net.Messages.Requests.{complete}

unfoldable pub flag : Bool → ℕ
flag b = if b then 1 else 0

-- The loop of `EncodeResponse` over the rows
unfoldable pub encode_rows : List (List ℕ × List ℕ) → List ℕ → List ℕ
encode_rows [] rest = rest
encode_rows ((k, v) ∷ kvs) rest =
    put_length_prefixed k ++ (put_length_prefixed v ++ encode_rows kvs rest)

-- `EncodeResponse` up to the rows, and behind them
unfoldable pub encode_outcome : Response → List ℕ → List ℕ
encode_outcome resp rest =
    put_fixed8 (type_code response)
    ++ (put_fixed8 resp.code
        ++ (put_length_prefixed resp.leader_addr
            ++ (put_length_prefixed resp.message
                ++ (put_fixed8 (flag resp.found)
                    ++ (put_length_prefixed resp.value
                        ++ (put_fixed32 (length resp.kvs) ++ rest))))))

unfoldable pub encode_lock_part : Response → List ℕ
encode_lock_part resp =
    put_fixed64 resp.ts
    ++ (put_fixed64 resp.lock_ts
        ++ (put_length_prefixed resp.lock_primary ++ put_length_prefixed resp.lock_key))

-- `EncodeResponse`
unfoldable pub encode_response : Response → List ℕ
encode_response resp = encode_outcome resp (encode_rows resp.kvs (encode_lock_part resp))

unfoldable pub read_row : Reader (List ℕ × List ℕ)
read_row = do k ← str; v ← str; pure (k, v)

-- The loop of `DecodeResponse`: `count` rounds at most, while the decoder has not failed
unfoldable pub read_rows : ℕ → Reader (List (List ℕ × List ℕ))
read_rows zero d = ([], d)
read_rows (suc count) d = elim d.failed [
  | true ↦ ([], d)
  | false ↦ (do row ← read_row; rows ← read_rows count; pure (row ∷ rows)) d
]

unfoldable pub read_response : Reader Response
read_response = do
  code ← u8
  leader_addr ← str
  message ← str
  found ← u8
  value ← str
  count ← u32
  kvs ← read_rows count
  ts ← u64
  lock_ts ← u64
  lock_primary ← str
  lock_key ← str
  pure (record {
    code = code;
    leader_addr = leader_addr;
    message = message;
    found = not (found == 0);
    value = value;
    kvs = kvs;
    ts = ts;
    lock_ts = lock_ts;
    lock_primary = lock_primary;
    lock_key = lock_key;
  })

-- `DecodeResponse`
unfoldable pub decode_response : List ℕ → Option Response
decode_response payload =
    let type = u8 (decoder payload) in
    if not (type.0 == type_code response) then none else complete (read_response type.1)

-- `EncodeRaftFrame`
unfoldable pub encode_raft_frame : List ℕ → List ℕ
encode_raft_frame body = put_fixed8 (type_code raft) ++ body

-- `DecodeIsRaftFrame`: the body
unfoldable pub decode_is_raft_frame : List ℕ → Option (List ℕ)
decode_is_raft_frame [] = none
decode_is_raft_frame (b ∷ body) = if not (b == type_code raft) then none else some body
