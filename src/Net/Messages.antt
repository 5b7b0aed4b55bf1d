-- ===== src/Net/Messages.antt =====
-- net/messages.cc: requests and responses of the client protocol, and their statuses.
pub mod Replies
pub mod Requests
pub mod Responses
pub mod RoundTrip
use flotilladb.Base.{ℕ, zero, suc, Bool, true, false, not, Option, none, some, List, [], ◌∷◌, ◌++◌}
use flotilladb.Base.{◌==◌, if◌then◌else◌, length}
use flotilladb.Base.Texts.{codes, decimal}
use flotilladb.Coding.{
  put_fixed8, put_fixed32, put_fixed64, put_length_prefixed, Decoder, decoder, Reader, ◌>>=◌, pure,
  u8, u32, u64, str, finished,
}
use flotilladb.Status.{
  Code, Status, failure, fine, ok, not_found, corruption, io_error, invalid_argument, not_leader,
  timeout, aborted, conflict,
}

pub data MsgType : Type 0 where
  get put delete scan status split ranges txn_ts txn_get txn_prewrite : MsgType
  txn_commit txn_rollback txn_scan txn_resolve response raft : MsgType

-- The numbers of `enum class MsgType : uint8_t`
unfoldable pub type_code : MsgType → ℕ
type_code get = 1
type_code put = 2
type_code delete = 3
type_code scan = 4
type_code status = 5
type_code split = 6
type_code ranges = 7
type_code txn_ts = 8
type_code txn_get = 9
type_code txn_prewrite = 10
type_code txn_commit = 11
type_code txn_rollback = 12
type_code txn_scan = 13
type_code txn_resolve = 14
type_code response = 16
type_code raft = 32

pub record Request : Type 0 where
  pub type : MsgType
  pub key : List ℕ
  pub value : List ℕ
  pub end_key : List ℕ
  pub limit : ℕ
  pub flags : ℕ
  pub ts : ℕ
  pub ts2 : ℕ
  pub primary : List ℕ
  pub wop : ℕ

pub record Response : Type 0 where
  pub code : ℕ
  pub leader_addr : List ℕ
  pub message : List ℕ
  pub found : Bool
  pub value : List ℕ
  pub kvs : List (List ℕ × List ℕ)
  pub ts : ℕ
  pub lock_ts : ℕ
  pub lock_primary : List ℕ
  pub lock_key : List ℕ

abbrev pub blank_response : Response
blank_response = record {
  code = 0;
  leader_addr = [];
  message = [];
  found = false;
  value = [];
  kvs = [];
  ts = 0;
  lock_ts = 0;
  lock_primary = [];
  lock_key = [];
}

-- The numbers of `enum class Status::Code`
unfoldable pub status_code : Code → ℕ
status_code ok = 0
status_code not_found = 1
status_code corruption = 2
status_code io_error = 3
status_code invalid_argument = 4
status_code not_leader = 5
status_code timeout = 6
status_code aborted = 7
status_code conflict = 8

unfoldable pub status_of : ℕ → Option Code
status_of n =
    if n == 0
    then some ok
    else if n == 1
    then some not_found
    else if n == 2
    then some corruption
    else if n == 3
    then some io_error
    else if n == 4
    then some invalid_argument
    else if n == 5
    then some not_leader
    else if n == 6
    then some timeout
    else if n == 7
    then some aborted
    else if n == 8
    then some conflict
    else none

unfoldable pub status_with : Option Code → Response → Status
status_with none resp = failure io_error (codes "unknown response code " ++ decimal resp.code)
status_with (some ok) resp = fine
status_with (some code) resp = failure code resp.message

-- `Response::ToStatus`
unfoldable pub to_status : Response → Status
to_status resp = status_with (status_of resp.code) resp

-- `Response::FromStatus`
unfoldable pub from_status : Status → Response
from_status s = record blank_response { code = status_code s.code; message = s.message }
