-- ===== src/Net/Messages/RoundTrip.antt =====
-- What net/messages.cc encodes it decodes.
use flotilladb.Base.{◌^◌, ◌<◌, ◌≡◌, refl}
use flotilladb.Base.{inl, inr, Bool, true, false, none, some, [], ◌++◌}
use flotilladb.Base.{append-nil, arith, if◌then◌else◌, Bool-cases}
use flotilladb.Base.{length}
use flotilladb.Coding.{put_fixed8, put_fixed32, put_fixed64, put_length_prefixed, decoder, finished}
use flotilladb.Coding.RoundTrip.{u8-put, u32-put, u64-put, str-put}
use flotilladb.Net.Messages.{MsgType, get, put, response, raft, type_code, Request}
use flotilladb.Net.Messages.Requests.{
  encode_request, request_type, read_request, complete, decode_typed, decode_request,
}

-- The types that a request may have
abbrev pub is_request : MsgType → Bool
is_request response = false
is_request raft = false
is_request _ = true

request_type-code :
    (t : MsgType) → request_type (type_code t) ≡ (if is_request t then some t else none)
unfolding request_type type_code
request_type-code get = refl
request_type-code put = refl
request_type-code t = refl

type_code-lt : (t : MsgType) → type_code t < 2 ^ 8
unfolding type_code
type_code-lt get = omega arith
type_code-lt t = omega arith

-- The fields of a request fit their widths.
pub record RequestFits (req : Request) : Type 0 where
  pub key : length req.key < 2 ^ 32
  pub value : length req.value < 2 ^ 32
  pub end_key : length req.end_key < 2 ^ 32
  pub limit : req.limit < 2 ^ 32
  pub flags : req.flags < 2 ^ 8
  pub ts : req.ts < 2 ^ 64
  pub ts2 : req.ts2 < 2 ^ 64
  pub primary : length req.primary < 2 ^ 32
  pub wop : req.wop < 2 ^ 8

pub complete_done : {A : Type 0} (a : A) → complete (a, decoder []) ≡ some a
unfolding complete finished decoder
complete_done a = refl

read_request-encode :
    (req : Request)
    → RequestFits req
    → read_request req.type (
        decoder (
          put_length_prefixed req.key
          ++ (put_length_prefixed req.value
              ++ (put_length_prefixed req.end_key
                  ++ (put_fixed32 req.limit
                      ++ (put_fixed8 req.flags
                          ++ (put_fixed64 req.ts
                              ++ (put_fixed64 req.ts2
                                  ++ (put_length_prefixed req.primary ++ put_fixed8 req.wop)))))))))
      ≡ (req, decoder [])
unfolding read_request
read_request-encode req f =
    rw
      (
        str-put req.key _ f.key,
        str-put req.value _ f.value,
        str-put req.end_key _ f.end_key,
        u32-put req.limit _ f.limit,
        u8-put req.flags _ f.flags,
        u64-put req.ts _ f.ts,
        u64-put req.ts2 _ f.ts2,
        str-put req.primary _ f.primary,
        ← append-nil (put_fixed8 req.wop),
        u8-put req.wop [] f.wop,
      )
      refl

-- A request whose fields fit their widths is decoded as it was encoded if its type is a request's,
-- and is refused if it is the type of responses or of Raft frames.
pub decode_request-encode_request :
    (req : Request)
    → RequestFits req
    → decode_request (encode_request req) ≡ (if is_request req.type then some req else none)
unfolding decode_request encode_request decode_typed
decode_request-encode_request req f =
    rw (u8-put (type_code req.type) _ (type_code-lt req.type), request_type-code req.type)
      (elim (Bool-cases (is_request req.type)) [
        | inl yes_request ↦ rw (yes_request, read_request-encode req f, complete_done req) refl
        | inr other ↦ rw other refl
      ])
