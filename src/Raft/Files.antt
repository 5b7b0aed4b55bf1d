-- ===== src/Raft/Files.antt =====
-- raft/raft_storage.cc: the bytes of the files `state`, `snap` and `log`, and `Load`. The files are
-- replaced or extended by whole successful writes; opening, syncing and renaming are the operating
-- system's.
pub mod Gap
pub mod Loading
pub mod Reload
pub mod Sealed
use flotilladb.Base.{ℕ, zero, suc, ◌+◌, ◌-◌}
use flotilladb.Base.{true, false, not, ◌&&◌, Option, none, some, List, [], ◌∷◌, ◌++◌}
use flotilladb.Base.{ltb, ◌==◌, if◌then◌else◌}
use flotilladb.Base.{length, take}
use flotilladb.Coding.{
  put_fixed32, put_fixed64, put_length_prefixed, Decoder, decoder, Reader, ◌>>=◌, pure, u32, u64,
  str, finished,
}
use flotilladb.Crc.{crc32}
use flotilladb.Records.{frame, unframe}
use flotilladb.Raft.Types.{LogEntry, HardState, Snapshot}
use flotilladb.Raft.Storage.{Storage}

pub record Files : Type 0 where
  pub state : Option (List ℕ)
  pub snap : Option (List ℕ)
  pub log : Option (List ℕ)

unfoldable pub encode_log_payload : LogEntry → List ℕ
encode_log_payload e = put_fixed64 e.term ++ (put_fixed64 e.index ++ put_length_prefixed e.command)

-- `EncodeLogRecord`
unfoldable pub encode_log_record : LogEntry → List ℕ
encode_log_record e = frame (encode_log_payload e)

-- `buf` of `Append` and `RewriteLog`
unfoldable pub encode_log : List LogEntry → List ℕ
encode_log [] = []
encode_log (e ∷ es) = encode_log_record e ++ encode_log es

unfoldable pub sealed : List ℕ → List ℕ
sealed bytes = bytes ++ put_fixed32 (crc32 bytes)

-- The file that `SaveHardState` writes
unfoldable pub encode_state : HardState → List ℕ
encode_state hs = sealed (put_fixed64 hs.term ++ put_fixed32 hs.voted_for)

-- The file that `SaveSnapshot` writes
unfoldable pub encode_snap : Snapshot → List ℕ
encode_snap snap = sealed (
    put_fixed64 snap.last_index
    ++ (put_fixed64 snap.last_term ++ put_length_prefixed snap.snap_bytes))

unfoldable pub read_state : Reader (HardState × ℕ)
read_state = do
  term ← u64
  voted_for ← u32
  crc ← u32
  pure (record { term = term; voted_for = voted_for }, crc)

unfoldable pub check_state : List ℕ → (HardState × ℕ) × Decoder → Option HardState
check_state bytes ((hs, crc), d) =
    if finished d && crc == crc32 (take 12 bytes) then some hs else none

-- The first part of `Load`: `none` is Status::Corruption.
unfoldable pub load_state : Option (List ℕ) → Option HardState
load_state none = some (record { term = 0; voted_for = 0 })
load_state (some bytes) = check_state bytes (read_state (decoder bytes))

unfoldable pub read_snap : Reader (Snapshot × ℕ)
read_snap = do
  last_index ← u64
  last_term ← u64
  snap_bytes ← str
  crc ← u32
  pure (record { last_index = last_index; last_term = last_term; snap_bytes = snap_bytes }, crc)

-- `data.size() - 4` is computed for 4 bytes and more only, since the decoder has failed otherwise.
unfoldable pub check_snap : List ℕ → (Snapshot × ℕ) × Decoder → Option Snapshot
check_snap bytes ((snap, crc), d) =
    if finished d && crc == crc32 (take (length bytes - 4) bytes) then some snap else none

unfoldable pub load_snap : Option (List ℕ) → Option Snapshot
load_snap none = some (record { last_index = 0; last_term = 0; snap_bytes = [] })
load_snap (some bytes) = check_snap bytes (read_snap (decoder bytes))

unfoldable pub read_log_entry : Reader LogEntry
read_log_entry = do
  term ← u64
  index ← u64
  command ← str
  pure (record { term = term; index = index; command = command })

unfoldable pub check_log_entry : LogEntry × Decoder → Option LogEntry
check_log_entry (e, d) = if finished d then some e else none

unfoldable pub decode_log_payload : List ℕ → Option LogEntry
decode_log_payload payload = check_log_entry (read_log_entry (decoder payload))

-- The loop of `Load` from a position on, with `expect`: the entries, and `valid_end`
unfoldable pub load_loop : (fuel : ℕ) → List ℕ → (expect valid_end : ℕ) → List LogEntry × ℕ
load_loop zero rest expect valid_end = ([], valid_end)
load_loop (suc fuel) rest expect valid_end = elim (unframe rest) [
  | none ↦ ([], valid_end)
  | some (payload, behind) ↦ elim (decode_log_payload payload) [
    | none ↦ ([], valid_end)
    | some e ↦
        let pos = valid_end + (8 + length payload) in
        elim (ltb e.index expect) [
          | true ↦ load_loop fuel behind expect pos
          | false ↦ elim (e.index == expect) [
            | true ↦ let more = load_loop fuel behind (expect + 1) pos in (e ∷ more.0, more.1)
            | false ↦ ([], pos)
          ]
        ]
  ]
]

-- The last part of `Load`. A record takes 8 bytes at least, so one round for each byte is enough.
unfoldable pub load_log : Option (List ℕ) → Snapshot → List LogEntry × Option (List ℕ)
load_log none snap = ([], none)
load_log (some bytes) snap =
    let read = load_loop (length bytes) bytes (snap.last_index + 1) 0 in
    (read.0, some (if ltb read.1 (length bytes) then take read.1 bytes else bytes))

unfoldable pub loaded : Files → Option HardState → Option Snapshot → Option (Storage × Files)
loaded files none snap = none
loaded files (some hs) none = none
loaded files (some hs) (some snap) =
    let log = load_log files.log snap in
    some (record { hard = hs; snap = snap; entries = log.0 }, record files { log = log.1 })

-- `Load`: the members and the files behind it, or Status::Corruption
unfoldable pub load : Files → Option (Storage × Files)
load files = loaded files (load_state files.state) (load_snap files.snap)
