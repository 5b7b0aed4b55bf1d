-- ===== src/Raft/Files/Reload.antt =====
-- `Load` of raft/raft_storage.cc after a crash.
use flotilladb.Base.{ℕ, ◌+◌, ◌^◌, ◌<◌, ◌≡◌, refl}
use flotilladb.Base.{none, some, List, ◌++◌}
use flotilladb.Base.{arith}
use flotilladb.Base.{length, All, length-append}
use flotilladb.Records.{unframe, unframe-torn, cut-append}
use flotilladb.Raft.Types.{LogEntry}
use flotilladb.Raft.Storage.{Storage}
use flotilladb.Raft.Valid.{Indexed}
use flotilladb.Raft.Files.{
  Files, encode_log_payload, encode_log_record, encode_log, encode_state, encode_snap, load_log,
  loaded, load,
}
use flotilladb.Raft.Files.Loading.{EntryFits, load_loop-behind}
use flotilladb.Raft.Files.Sealed.{load_state-encode, load_snap-encode}

-- What the members hold fits the widths in the files, and the entries follow the snapshot.
pub record IsStorable (st : Storage) : Type 0 where
  pub term : st.hard.term < 2 ^ 64
  pub voted_for : st.hard.voted_for < 2 ^ 32
  pub last_index : st.snap.last_index < 2 ^ 64
  pub last_term : st.snap.last_term < 2 ^ 64
  pub snap_bytes : length st.snap.snap_bytes < 2 ^ 32
  pub entries : All EntryFits st.entries
  pub indexed : Indexed (st.snap.last_index + 1) st.entries

-- The files of a storage whose log file holds some bytes
abbrev pub written : Storage → List ℕ → Files
written st log = record {
  state = some (encode_state st.hard);
  snap = some (encode_snap st.snap);
  log = some log;
}

load_log-behind :
    (st : Storage) (cs : List LogEntry) (torn : List ℕ)
    → IsStorable st
    → All EntryFits cs
    → All (λ c. c.index < st.snap.last_index + 1) cs
    → unframe torn ≡ none
    → load_log (some (encode_log (cs ++ st.entries) ++ torn)) st.snap
      ≡ (st.entries, some (encode_log (cs ++ st.entries)))
unfolding load_log
load_log-behind st cs torn v gs low t =
    let log = encode_log (cs ++ st.entries) in
    let read =
      load_loop-behind cs st.entries torn (length (log ++ torn)) (st.snap.last_index + 1) 0 gs low
        v.entries v.indexed t (omega (arith, length-append log torn)) in
    rw (read, let z : 0 + length log ≡ length log = omega arith in z, cut-append log torn) refl

-- A crash while one more entry is appended leaves a proper prefix of its record (the empty one, if
-- nothing was written) at the end of the log file; a crash between the two writes of `SaveSnapshot`
-- leaves entries `cs` that the snapshot covers at its front. `Load` then gives back exactly the
-- hard state, the snapshot and the entries behind it, and cuts the log file back to whole records.
pub load-written :
    (st : Storage) (cs : List LogEntry) (e : LogEntry) (torn more : List ℕ)
    → IsStorable st
    → All EntryFits cs
    → All (λ c. c.index < st.snap.last_index + 1) cs
    → EntryFits e
    → torn ++ more ≡ encode_log_record e
    → 0 < length more
    → load (written st (encode_log (cs ++ st.entries) ++ torn))
      ≡ some (st, written st (encode_log (cs ++ st.entries)))
unfolding load loaded encode_log_record
load-written st cs e torn more v gs low f split rest =
    rw
      (
        load_state-encode st.hard v.term v.voted_for,
        load_snap-encode st.snap v.last_index v.last_term v.snap_bytes,
        load_log-behind st cs torn v gs low
            (unframe-torn (encode_log_payload e) torn more f.payload split rest),
      )
      refl
