-- ===== src/Wal/Recovery.antt =====
-- Recovery of the write-ahead log of storage/wal.cc after a crash.
use flotilladb.Base.{ℕ, zero, suc, ◌+◌, ◌^◌, ◌≤◌, ◌<◌, ◌≡◌, refl, sym, ap, ◌∙◌}
use flotilladb.Base.{none, some, List, [], ◌∷◌, ◌++◌}
use flotilladb.Base.{append-nil, append_assoc, arith}
use flotilladb.Base.{length, All, length-append}
use flotilladb.Coding.{put_fixed8, put_length_prefixed, decoder, finished}
use flotilladb.Coding.RoundTrip.{u8-put, u64-put, str-put}
use flotilladb.Records.{frame, unframe, length-frame, unframe-frame, unframe-torn, cut-append}
use flotilladb.Wal.{
  Op, put, delete, Entry, op_code, op_of, encode_payload, read_fields, check_fields, decode_payload,
  append_record, recover_loop, recover_wal,
}

-- The fields fit the widths of the record.
pub record Fits (e : Entry) : Type 0 where
  pub seqno : e.seqno < 2 ^ 64
  pub key : length e.key < 2 ^ 32
  pub value : length e.value < 2 ^ 32
  pub payload : length (encode_payload e) < 2 ^ 32

op_code-lt : (o : Op) → op_code o < 2 ^ 8
unfolding op_code
op_code-lt put = omega arith
op_code-lt delete = omega arith

op_of-op_code : (o : Op) → op_of (op_code o) ≡ some o
unfolding op_of op_code
op_of-op_code put = refl
op_of-op_code delete = refl

read_fields-encode :
    (e : Entry)
    → Fits e
    → read_fields (decoder (encode_payload e))
      ≡ ((e.seqno, op_code e.op, e.key, e.value), decoder [])
unfolding read_fields encode_payload
read_fields-encode e f =
    rw
      (
        u64-put e.seqno
            (put_fixed8 (op_code e.op)
              ++ (put_length_prefixed e.key ++ put_length_prefixed e.value))
            f.seqno,
        u8-put (op_code e.op) (put_length_prefixed e.key ++ put_length_prefixed e.value)
            (op_code-lt e.op),
        str-put e.key (put_length_prefixed e.value) f.key,
        ← append-nil (put_length_prefixed e.value),
        str-put e.value [] f.value,
      )
      refl

checked : (e : Entry) → check_fields ((e.seqno, op_code e.op, e.key, e.value), decoder []) ≡ some e
unfolding check_fields finished decoder
checked e = rw (op_of-op_code e.op) refl

decode_payload-encode : (e : Entry) → Fits e → decode_payload (encode_payload e) ≡ some e
unfolding decode_payload
decode_payload-encode e f = ap check_fields (read_fields-encode e f) ∙ checked e

-- The bytes of a log of entries, each appended by `WalWriter::Append`
abbrev pub write_all : List ℕ → List Entry → List ℕ
write_all file [] = file
write_all file (e ∷ es) = write_all (append_record file e) es

-- The same bytes from the front
records : List Entry → List ℕ
records [] = []
records (e ∷ es) = frame (encode_payload e) ++ records es

write_all-records : (es : List Entry) (file : List ℕ) → write_all file es ≡ file ++ records es
unfolding append_record records
write_all-records [] file = sym (append-nil file)
write_all-records (e ∷ es) file =
    write_all-records es (append_record file e)
    ∙ append_assoc file (frame (encode_payload e)) (records es)

recover_loop-stop :
    (fuel end : ℕ) (torn : List ℕ) → unframe torn ≡ none → recover_loop fuel torn end ≡ ([], end)
unfolding recover_loop
recover_loop-stop zero end torn h = refl
recover_loop-stop (suc fuel) end torn h = rw (h, recover_loop) refl

recover_loop-records :
    (es : List Entry) (torn : List ℕ) (fuel end : ℕ)
    → All Fits es
    → unframe torn ≡ none
    → length (records es) ≤ fuel
    → recover_loop fuel (records es ++ torn) end ≡ (es, end + length (records es))
unfolding records recover_loop
recover_loop-records [] torn fuel end fs h k =
    recover_loop-stop fuel end torn h
    ∙ ap (λ (n : ℕ). let p : List Entry × ℕ = ([], n) in p) (omega arith)
recover_loop-records (e ∷ es) torn zero end (f, fs) h k = absurd (
    omega (
      arith,
      length-append (frame (encode_payload e)) (records es),
      length-frame (encode_payload e),
    ))
recover_loop-records (e ∷ es) torn (suc fuel) end (f, fs) h k =
    let size = length-append (frame (encode_payload e)) (records es) in
    let frame_size = length-frame (encode_payload e) in
    let next =
      recover_loop-records es torn fuel (end + (8 + length (encode_payload e))) fs h
        (omega (arith, size, frame_size)) in
    step (append_assoc (frame (encode_payload e)) (records es) torn ∙ refl) next
      (omega (arith, size, frame_size))
  where
    step :
        (frame (encode_payload e) ++ records es) ++ torn
          ≡ frame (encode_payload e) ++ (records es ++ torn)
        → recover_loop fuel (records es ++ torn) (end + (8 + length (encode_payload e)))
          ≡ (es, end + (8 + length (encode_payload e)) + length (records es))
        → end + (8 + length (encode_payload e)) + length (records es)
          ≡ end + length (frame (encode_payload e) ++ records es)
        → recover_loop (suc fuel) ((frame (encode_payload e) ++ records es) ++ torn) end
          ≡ (e ∷ es, end + length (frame (encode_payload e) ++ records es))
    step a n s =
        rw
          (
            a,
            recover_loop,
            unframe-frame (encode_payload e) (records es ++ torn) f.payload,
            decode_payload-encode e f,
            n,
            s,
          )
          refl

-- Recovery of a log of entries with an unreadable tail
recover_wal-tail :
    (es : List Entry) (torn : List ℕ)
    → All Fits es
    → unframe torn ≡ none
    → recover_wal (some (records es ++ torn)) ≡ (es, some (records es))
unfolding recover_wal
recover_wal-tail es torn fs h =
    let size = length-append (records es) torn in
    let read =
      recover_loop-records es torn (length (records es ++ torn)) 0 fs h (omega (arith, size)) in
    rw
      (
        read,
        let z : 0 + length (records es) ≡ length (records es) = omega arith in z,
        cut-append (records es) torn,
      )
      refl

-- A crash while one more entry is written leaves a proper prefix of its record at the end of the
-- log (the empty one, if nothing was written). Recovery then returns exactly the entries appended
-- before, in order, and cuts the file back to their records.
pub recover_wal-write_all :
    (es : List Entry) (e : Entry) (torn more : List ℕ)
    → All Fits es
    → Fits e
    → torn ++ more ≡ append_record [] e
    → 0 < length more
    → recover_wal (some (write_all [] es ++ torn)) ≡ (es, some (write_all [] es))
unfolding append_record
recover_wal-write_all es e torn more fs f split rest =
    rw (write_all-records es [])
      (recover_wal-tail es torn fs (unframe-torn (encode_payload e) torn more f.payload split rest))
