-- ===== src/Tests/Protocol.antt =====
-- Tests of the network protocol, and its theorems at concrete inputs.
use flotilladb.Base.{◌≡◌, refl, true, none, some, [], ◌∷◌, ◌++◌, arith}
use flotilladb.Base.Texts.{codes}
use flotilladb.Coding.{put_fixed32}
use flotilladb.Status
use flotilladb.Status.{Status, Result, done, failure, status_text}
use flotilladb.Net.Frame.{read_frame, write_frame}
use flotilladb.Net.Frame.RoundTrip.{read_frame-write_frame}
use flotilladb.Net.Messages
use flotilladb.Net.Messages.{Request, Response, blank_response, to_status, from_status}
use flotilladb.Net.Messages.Requests.{encode_request, decode_request}
use flotilladb.Net.Messages.Responses.{
  encode_response, decode_response, encode_raft_frame, decode_is_raft_frame,
}
use flotilladb.Net.Messages.RoundTrip.{decode_request-encode_request}
use flotilladb.Net.Messages.Replies.{
  decode_response-encode_response, to_status-from_status, decode_is_raft_frame_lem,
}

read_frame-write_frame_example :
    read_frame ((put_fixed32 2 ++ 7 ∷ 8 ∷ []) ++ 9 ∷ []) ≡ done (7 ∷ 8 ∷ [], 9 ∷ [])
read_frame-write_frame_example =
    read_frame-write_frame (7 ∷ 8 ∷ []) (put_fixed32 2 ++ 7 ∷ 8 ∷ []) (9 ∷ [])
      (unfold write_frame in refl)

abbrev asked : Request
asked = record {
  type = Messages.txn_prewrite;
  key = 107 ∷ [];
  value = 118 ∷ [];
  end_key = [];
  limit = 0;
  flags = 1;
  ts = 5;
  ts2 = 1000;
  primary = 107 ∷ [];
  wop = 1;
}

decode_request-encode_request_example : decode_request (encode_request asked) ≡ some asked
decode_request-encode_request_example = decode_request-encode_request asked (record {
  key = omega arith;
  value = omega arith;
  end_key = omega arith;
  limit = omega arith;
  flags = omega arith;
  ts = omega arith;
  ts2 = omega arith;
  primary = omega arith;
  wop = omega arith;
})

abbrev answer : Response
answer = record blank_response { found = true; kvs = (107 ∷ [], 118 ∷ []) ∷ []; ts = 9 }

decode_response-encode_response_example : decode_response (encode_response answer) ≡ some answer
decode_response-encode_response_example = decode_response-encode_response answer (record {
  code = omega arith;
  leader_addr = omega arith;
  message = omega arith;
  value = omega arith;
  count = omega arith;
  kvs = (record { key = omega arith; value = omega arith }, tt);
  ts = omega arith;
  lock_ts = omega arith;
  lock_primary = omega arith;
  lock_key = omega arith;
})

abbrev denied : Status
denied = failure Status.conflict (codes "locked")

to_status-from_status_example : to_status (from_status denied) ≡ denied
to_status-from_status_example = to_status-from_status denied tt

denied_text : status_text denied ≡ codes "conflict: locked"
unfolding status_text Status.code_name
denied_text = refl

decode_is_raft_frame_lem_example :
    (decode_is_raft_frame (encode_raft_frame (1 ∷ 2 ∷ [])) ≡ some (1 ∷ 2 ∷ []))
    × (decode_is_raft_frame (encode_request asked) ≡ none)
decode_is_raft_frame_lem_example = decode_is_raft_frame_lem (1 ∷ 2 ∷ []) asked (λ e. cc e)
