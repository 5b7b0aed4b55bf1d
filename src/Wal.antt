-- ===== src/Wal.antt =====
-- storage/wal.cc with storage/entry.h: the write-ahead log. The file is a byte string; opening,
-- writing and syncing it are the operating system's, and a failure of these ends the operation.
pub mod Recovery
use flotilladb.Base.{ℕ, zero, suc, ◌+◌, ◌-◌, ◌/◌}
use flotilladb.Base.{Option, none, some, List, [], ◌∷◌, ◌++◌, map}
use flotilladb.Base.{ltb, ◌==◌, if◌then◌else◌}
use flotilladb.Base.{length, take}
use mathlib.Core.Option
use flotilladb.Coding.{
  put_fixed8, put_fixed64, put_length_prefixed, Decoder, decoder, Reader, ◌>>=◌, pure, u8, u64, str,
  finished,
}
use flotilladb.Records.{frame, unframe}

pub data Op : Type 0 where
  put delete : Op

pub record Entry : Type 0 where
  pub key : List ℕ
  pub seqno : ℕ
  pub op : Op
  pub value : List ℕ

-- The numbers of `enum Op : uint8_t`
unfoldable pub op_code : Op → ℕ
op_code put = 1
op_code delete = 2

unfoldable pub op_of : ℕ → Option Op
op_of n = if n == 1 then some put else if n == 2 then some delete else none

-- `EncodePayload`
unfoldable pub encode_payload : Entry → List ℕ
encode_payload e =
    put_fixed64 e.seqno
    ++ (put_fixed8 (op_code e.op) ++ (put_length_prefixed e.key ++ put_length_prefixed e.value))

abbrev pub Fields : Type 0
Fields = ℕ × ℕ × List ℕ × List ℕ

unfoldable pub read_fields : Reader Fields
read_fields = do seqno ← u64; op ← u8; key ← str; value ← str; pure (seqno, op, key, value)

check_fields : Fields × Decoder → Option Entry
check_fields ((seqno, op, key, value), d) =
    if finished d
    then Option.map (λ o. record { key = key; seqno = seqno; op = o; value = value }) (op_of op)
    else none

-- `DecodePayload`
unfoldable pub decode_payload : List ℕ → Option Entry
unfolding check_fields
decode_payload p = check_fields (read_fields (decoder p))

-- `WalWriter::Append`: what the record adds to the file
unfoldable pub append_record : List ℕ → Entry → List ℕ
append_record file e = file ++ frame (encode_payload e)

-- The loop of `RecoverWal` from a position on: the entries, and `valid_end`
unfoldable pub recover_loop : ℕ → List ℕ → ℕ → List Entry × ℕ
recover_loop zero rest valid_end = ([], valid_end)
recover_loop (suc fuel) rest valid_end = elim (unframe rest) [
  | none ↦ ([], valid_end)
  | some (payload, behind) ↦ elim (decode_payload payload) [
    | none ↦ ([], valid_end)
    | some e ↦
        let more = recover_loop fuel behind (valid_end + (8 + length payload)) in
        (e ∷ more.0, more.1)
  ]
]

-- `RecoverWal`: the entries, and the file behind them. A missing file is no error. A record takes
-- 8 bytes at least, so one round for each byte is enough.
unfoldable pub recover_wal : Option (List ℕ) → List Entry × Option (List ℕ)
recover_wal none = ([], none)
recover_wal (some file) =
    let read = recover_loop (length file) file 0 in
    (read.0, some (if ltb read.1 (length file) then take read.1 file else file))
