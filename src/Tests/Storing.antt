-- ===== src/Tests/Storing.antt =====
-- Tests of the files of a Raft core, and their theorem at concrete inputs.
use flotilladb.Base.{◌≡◌, refl, some, [], ◌∷◌, ◌++◌, take, drop, arith}
use flotilladb.Coding.{put_fixed64, put_fixed32, put_length_prefixed, put_bytes}
use flotilladb.Records.{frame}
use flotilladb.Raft.Types.{LogEntry}
use flotilladb.Raft.Storage.{Storage}
use flotilladb.Raft.Files.{encode_log_payload, encode_log_record, encode_log, load, load_log}
use flotilladb.Raft.Files.Loading.{EntryFits}
use flotilladb.Raft.Files.Gap.{load_log-gap}
use flotilladb.Raft.Files.Reload.{IsStorable, written, load-written}

abbrev old : LogEntry
old = record { term = 1; index = 4; command = 97 ∷ [] }

abbrev new : LogEntry
new = record { term = 2; index = 5; command = 98 ∷ 0 ∷ [] }

abbrev next_one : LogEntry
next_one = record { term = 2; index = 6; command = [] }

abbrev stored : Storage
stored = record {
  hard = record { term = 2; voted_for = 1 };
  snap = record { last_index = 4; last_term = 1; snap_bytes = 115 ∷ [] };
  entries = new ∷ [];
}

old-EntryFits : EntryFits old
unfolding encode_log_payload put_fixed64 put_fixed32 put_length_prefixed put_bytes
old-EntryFits = record {
  term = omega arith;
  index = omega arith;
  command = omega arith;
  payload = omega arith;
}

new-EntryFits : EntryFits new
unfolding encode_log_payload put_fixed64 put_fixed32 put_length_prefixed put_bytes
new-EntryFits = record {
  term = omega arith;
  index = omega arith;
  command = omega arith;
  payload = omega arith;
}

next_one-EntryFits : EntryFits next_one
unfolding encode_log_payload put_fixed64 put_fixed32 put_length_prefixed put_bytes
next_one-EntryFits = record {
  term = omega arith;
  index = omega arith;
  command = omega arith;
  payload = omega arith;
}

stored-IsStorable : IsStorable stored
stored-IsStorable = record {
  term = omega arith;
  voted_for = omega arith;
  last_index = omega arith;
  last_term = omega arith;
  snap_bytes = omega arith;
  entries = (new-EntryFits, tt);
  indexed = (refl, tt);
}

load-written_example :
    load (written stored (encode_log (old ∷ new ∷ []) ++ take 9 (encode_log_record next_one)))
    ≡ some (stored, written stored (encode_log (old ∷ new ∷ [])))
load-written_example =
    load-written stored (old ∷ []) next_one (take 9 (encode_log_record next_one))
      (drop 9 (encode_log_record next_one)) stored-IsStorable (old-EntryFits, tt) (omega arith, tt)
      next_one-EntryFits
      (unfold encode_log_record frame encode_log_payload put_fixed32 put_fixed64 put_length_prefixed
          put_bytes in
        refl)
      (unfold encode_log_record frame encode_log_payload put_fixed32 put_fixed64 put_length_prefixed
          put_bytes in
        (omega arith))

abbrev late : LogEntry
late = record { term = 2; index = 7; command = [] }

late-EntryFits : EntryFits late
unfolding encode_log_payload put_fixed64 put_fixed32 put_length_prefixed put_bytes
late-EntryFits = record {
  term = omega arith;
  index = omega arith;
  command = omega arith;
  payload = omega arith;
}

-- The entry with the index 6, appended behind the gap, is lost.
load_log-gap_example :
    load_log
      (some ((encode_log (new ∷ []) ++ encode_log_record late) ++ encode_log_record next_one))
      stored.snap
    ≡ (new ∷ [], some (encode_log (new ∷ []) ++ encode_log_record late))
load_log-gap_example =
    load_log-gap stored.snap (new ∷ []) late (encode_log_record next_one) (new-EntryFits, tt)
      (refl, tt) late-EntryFits (omega arith)
