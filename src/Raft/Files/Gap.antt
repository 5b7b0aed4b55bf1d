-- ===== src/Raft/Files/Gap.antt =====
-- `Load` of raft/raft_storage.cc at a record that leaves a gap in the numbering.
use flotilladb.Base.{ℕ, zero, suc, ◌+◌, ◌<◌, ◌≡◌, refl, ap, subst, ◌∙◌}
use flotilladb.Base.{false, some, List, [], ◌∷◌, ◌++◌}
use flotilladb.Base.{append_assoc, arith, ltb, ◌==◌}
use flotilladb.Base.{length, All, length-append}
use flotilladb.Records.{length-frame, unframe-frame, cut-append}
use flotilladb.Raft.Types.{LogEntry, Snapshot}
use flotilladb.Raft.Valid.{Indexed}
use flotilladb.Raft.Files.{encode_log_payload, encode_log_record, encode_log, load_loop, load_log}
use flotilladb.Raft.Files.Loading.{
  EntryFits, decode_log_payload-encode, load_loop-next, length-encode_log, encode_log-front,
}

load_loop-gap :
    (e : LogEntry) (fuel : ℕ) (rest : List ℕ) (expect end : ℕ)
    → EntryFits e
    → expect < e.index
    → load_loop (suc fuel) (encode_log_record e ++ rest) expect end
      ≡ ([], end + (8 + length (encode_log_payload e)))
unfolding load_loop encode_log_record
load_loop-gap e fuel rest expect end f h =
    let other : (e.index == expect) ≡ false = ground arith in
    let not_below : ltb e.index expect ≡ false = ground arith in
    rw
      (
        load_loop,
        unframe-frame (encode_log_payload e) rest f.payload,
        decode_log_payload-encode e f,
        not_below,
        other,
      )
      refl

load_loop-before_gap :
    (es : List LogEntry) (e : LogEntry) (rest : List ℕ) (fuel expect end : ℕ)
    → All EntryFits es
    → Indexed expect es
    → EntryFits e
    → expect + length es < e.index
    → length (encode_log es) < fuel
    → load_loop fuel (encode_log es ++ (encode_log_record e ++ rest)) expect end
      ≡ (es, end + length (encode_log es) + (8 + length (encode_log_payload e)))
load_loop-before_gap es e rest zero expect end fs h g gap k = absurd (omega arith)
load_loop-before_gap [] e rest (suc fuel) expect end fs h g gap k =
    unfold encode_log in
    (load_loop-gap e fuel rest expect end g (omega arith)
      ∙ ap (λ (n : ℕ). let p : List LogEntry × ℕ = ([], n) in p) (omega arith))
load_loop-before_gap (c ∷ es) e rest (suc fuel) expect end (f, fs) (h, hs) g gap k =
    ap (λ xs. load_loop (suc fuel) xs expect end)
      (encode_log-front c es (encode_log_record e ++ rest))
    ∙ load_loop-next c fuel (encode_log es ++ (encode_log_record e ++ rest)) expect end f h
    ∙ ap (λ (more : List LogEntry × ℕ). let p : List LogEntry × ℕ = (c ∷ more.0, more.1) in p)
        (load_loop-before_gap es e rest fuel (expect + 1)
          (end + (8 + length (encode_log_payload c))) fs
          (subst (λ (i : ℕ). Indexed i es) (omega arith) hs) g (omega arith)
          (omega (arith, length-encode_log c es)))
    ∙ ap (λ (n : ℕ). let p : List LogEntry × ℕ = (c ∷ es, n) in p)
        (omega (arith, length-encode_log c es))

-- A log file of entries that follow the snapshot, then an entry `e` behind a gap, then anything:
-- `Load` gives the entries before the gap, but leaves `e` in the file. Since `rest` is arbitrary,
-- every entry that is appended behind `e` is lost at the next `Load` as well.
pub load_log-gap :
    (snap : Snapshot) (es : List LogEntry) (e : LogEntry) (rest : List ℕ)
    → All EntryFits es
    → Indexed (snap.last_index + 1) es
    → EntryFits e
    → snap.last_index + 1 + length es < e.index
    → load_log (some ((encode_log es ++ encode_log_record e) ++ rest)) snap
      ≡ (es, some (encode_log es ++ encode_log_record e))
unfolding load_log
load_log-gap snap es e rest fs h g gap =
    let log = encode_log es ++ encode_log_record e in
    let size = record_size in
    let read =
      ap (λ xs. load_loop (length (log ++ rest)) xs (snap.last_index + 1) 0)
        (append_assoc (encode_log es) (encode_log_record e) rest)
      ∙ load_loop-before_gap es e rest (length (log ++ rest)) (snap.last_index + 1) 0 fs h g gap (
          omega (
            arith,
            length-append log rest,
            length-append (encode_log es) (encode_log_record e),
            size,
          )) in
    let end : 0 + length (encode_log es) + (8 + length (encode_log_payload e)) ≡ length log =
      omega (arith, length-append (encode_log es) (encode_log_record e), size) in
    rw (read, end, cut-append log rest) refl
  where
    record_size : length (encode_log_record e) ≡ length (encode_log_payload e) + 8
    record_size = unfold encode_log_record in length-frame (encode_log_payload e)
