-- ===== src/Net/Messages/Replies.antt =====
-- What net/messages.cc encodes of a response it decodes; statuses and Raft frames.
use flotilladb.Base.{ℕ, suc, ◌%◌, ◌^◌, ◌<◌, ◌≡◌, refl}
use flotilladb.Base.{◌≢◌, Bool, true, false, not, none, some, List, [], ◌∷◌}
use flotilladb.Base.{append-nil, arith, ◌==◌}
use flotilladb.Base.{length, All}
use flotilladb.Coding.{put_fixed8, put_length_prefixed, decoder, ◌>>=◌, pure}
use flotilladb.Coding.RoundTrip.{u8-put, u32-put, u64-put, str-put}
use flotilladb.Status.{
  Code, Status, ok, not_found, corruption, io_error, invalid_argument, not_leader, timeout, aborted,
  conflict,
}
use flotilladb.Net.Messages.{
  MsgType, get, raft, type_code, Request, Response, status_code, status_of, status_with, to_status,
  from_status,
}
use flotilladb.Net.Messages.Requests.{encode_request}
use flotilladb.Net.Messages.Responses.{
  flag, encode_rows, encode_outcome, encode_lock_part, encode_response, read_row, read_rows,
  read_response, decode_response, encode_raft_frame, decode_is_raft_frame,
}
use flotilladb.Net.Messages.RoundTrip.{complete_done}

-- A row of a scan fits the widths.
pub record RowFits (row : List ℕ × List ℕ) : Type 0 where
  pub key : length row.0 < 2 ^ 32
  pub value : length row.1 < 2 ^ 32

-- The fields of a response fit their widths.
pub record ResponseFits (resp : Response) : Type 0 where
  pub code : resp.code < 2 ^ 8
  pub leader_addr : length resp.leader_addr < 2 ^ 32
  pub message : length resp.message < 2 ^ 32
  pub value : length resp.value < 2 ^ 32
  pub count : length resp.kvs < 2 ^ 32
  pub kvs : All RowFits resp.kvs
  pub ts : resp.ts < 2 ^ 64
  pub lock_ts : resp.lock_ts < 2 ^ 64
  pub lock_primary : length resp.lock_primary < 2 ^ 32
  pub lock_key : length resp.lock_key < 2 ^ 32

flag-lt : (b : Bool) → flag b < 2 ^ 8
unfolding flag
flag-lt true = omega arith
flag-lt false = omega arith

flag_back : (b : Bool) → not (flag b == 0) ≡ b
unfolding flag
flag_back true = refl
flag_back false = refl

read_rows_more :
    (n : ℕ) (xs : List ℕ)
    → read_rows (suc n) (decoder xs)
      ≡ (do row ← read_row; rows ← read_rows n; pure (row ∷ rows)) (decoder xs)
unfolding read_rows decoder
read_rows_more n xs = refl

read_rows-encode :
    (kvs : List (List ℕ × List ℕ)) (rest : List ℕ)
    → All RowFits kvs
    → read_rows (length kvs) (decoder (encode_rows kvs rest)) ≡ (kvs, decoder rest)
unfolding read_rows encode_rows read_row
read_rows-encode [] rest f = refl
read_rows-encode ((k, v) ∷ kvs) rest (f, fs) =
    rw
      (
        read_rows_more (length kvs) (encode_rows ((k, v) ∷ kvs) rest),
        str-put k _ f.key,
        str-put v _ f.value,
        read_rows-encode kvs rest fs,
      )
      refl

-- A response whose fields fit their widths is decoded as it was encoded.
pub decode_response-encode_response :
    (resp : Response) → ResponseFits resp → decode_response (encode_response resp) ≡ some resp
unfolding decode_response encode_response encode_outcome encode_lock_part read_response type_code
decode_response-encode_response resp f =
    rw
      (
        u8-put 16 _ (omega arith),
        u8-put resp.code _ f.code,
        str-put resp.leader_addr _ f.leader_addr,
        str-put resp.message _ f.message,
        u8-put (flag resp.found) _ (flag-lt resp.found),
        flag_back resp.found,
        str-put resp.value _ f.value,
        u32-put (length resp.kvs) _ f.count,
        read_rows-encode resp.kvs _ f.kvs,
        u64-put resp.ts _ f.ts,
        u64-put resp.lock_ts _ f.lock_ts,
        str-put resp.lock_primary _ f.lock_primary,
        ← append-nil (put_length_prefixed resp.lock_key),
        str-put resp.lock_key [] f.lock_key,
        complete_done resp,
      )
      refl

-- `Status::OK()` carries no message.
abbrev pub IsStatus : Status → Type 0
IsStatus s = elim s.code [ ok ↦ s.message ≡ [] | _ ↦ Unit {0} ]

-- A status comes back from the response that carries it.
pub to_status-from_status : (s : Status) → IsStatus s → to_status (from_status s) ≡ s
unfolding to_status from_status status_of status_code status_with
to_status-from_status s h = go s.code refl
  where
    go : (c : Code) → s.code ≡ c → to_status (from_status s) ≡ s
    go ok e = ground arith
    go not_found e = ground arith
    go corruption e = ground arith
    go io_error e = ground arith
    go invalid_argument e = ground arith
    go not_leader e = ground arith
    go timeout e = ground arith
    go aborted e = ground arith
    go conflict e = ground arith

no_raft : (t : MsgType) → t ≢ raft → (type_code t % 2 ^ 8 == 32) ≡ false
unfolding type_code
no_raft get h = refl
no_raft raft h = absurd (h refl)
no_raft t h = refl

-- The body of a Raft frame comes back, and a request is never taken for a Raft frame.
pub decode_is_raft_frame_lem :
    (body : List ℕ) (req : Request)
    → req.type ≢ raft
    → (decode_is_raft_frame (encode_raft_frame body) ≡ some body)
      × (decode_is_raft_frame (encode_request req) ≡ none)
unfolding decode_is_raft_frame encode_raft_frame encode_request type_code put_fixed8
decode_is_raft_frame_lem body req h = (refl, rw (no_raft req.type h) refl)
