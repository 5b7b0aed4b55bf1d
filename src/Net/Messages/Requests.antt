-- ===== src/Net/Messages/Requests.antt =====
-- net/messages.cc: the bytes of a request.
use flotilladb.Base.{ℕ, Option, none, some, List, ◌++◌}
use flotilladb.Base.{◌==◌, if◌then◌else◌}
use flotilladb.Coding.{
  put_fixed8, put_fixed32, put_fixed64, put_length_prefixed, Decoder, decoder, Reader, ◌>>=◌, pure,
  u8, u32, u64, str, finished,
}
use flotilladb.Net.Messages.{
  MsgType, get, put, delete, scan, status, split, ranges, txn_ts, txn_get, txn_prewrite, txn_commit,
  txn_rollback, txn_scan, txn_resolve, type_code, Request,
}

-- `EncodeRequest`
unfoldable pub encode_request : Request → List ℕ
encode_request req =
    put_fixed8 (type_code req.type)
    ++ (put_length_prefixed req.key
        ++ (put_length_prefixed req.value
            ++ (put_length_prefixed req.end_key
                ++ (put_fixed32 req.limit
                    ++ (put_fixed8 req.flags
                        ++ (put_fixed64 req.ts
                            ++ (put_fixed64 req.ts2
                                ++ (put_length_prefixed req.primary ++ put_fixed8 req.wop))))))))

-- The `switch` of `DecodeRequest`
unfoldable pub request_type : ℕ → Option MsgType
request_type n =
    if n == 1
    then some get
    else if n == 2
    then some put
    else if n == 3
    then some delete
    else if n == 4
    then some scan
    else if n == 5
    then some status
    else if n == 6
    then some split
    else if n == 7
    then some ranges
    else if n == 8
    then some txn_ts
    else if n == 9
    then some txn_get
    else if n == 10
    then some txn_prewrite
    else if n == 11
    then some txn_commit
    else if n == 12
    then some txn_rollback
    else if n == 13
    then some txn_scan
    else if n == 14
    then some txn_resolve
    else none

unfoldable pub read_request : MsgType → Reader Request
read_request type = do
  key ← str
  value ← str
  end_key ← str
  limit ← u32
  flags ← u8
  ts ← u64
  ts2 ← u64
  primary ← str
  wop ← u8
  pure (record {
    type = type;
    key = key;
    value = value;
    end_key = end_key;
    limit = limit;
    flags = flags;
    ts = ts;
    ts2 = ts2;
    primary = primary;
    wop = wop;
  })

unfoldable pub complete : {A : Type 0} → A × Decoder → Option A
complete (a, d) = if finished d then some a else none

unfoldable pub decode_typed : Option MsgType → Decoder → Option Request
decode_typed none d = none
decode_typed (some type) d = complete (read_request type d)

-- `DecodeRequest`
unfoldable pub decode_request : List ℕ → Option Request
decode_request payload =
    let type = u8 (decoder payload) in decode_typed (request_type type.0) type.1
