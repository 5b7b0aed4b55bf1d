-- ===== src/Raft/Files/Loading.antt =====
-- `Load` of raft/raft_storage.cc over the bytes of the log file.
use flotilladb.Base.{ℕ, zero, suc, ◌+◌, ◌^◌, ◌≤◌, ◌<◌, ◌≡◌, refl, ap, subst, ◌∙◌}
use flotilladb.Base.{true, false, none, some, List, [], ◌∷◌, ◌++◌}
use flotilladb.Base.{append-nil, append_assoc, arith, ltb, ◌==◌, lt→ltb, ==_iff}
use flotilladb.Base.{length, All, length-append}
use flotilladb.Coding.{put_length_prefixed, decoder, finished}
use flotilladb.Coding.RoundTrip.{u64-put, str-put}
use flotilladb.Records.{frame, unframe, length-frame, unframe-frame}
use flotilladb.Raft.Types.{LogEntry}
use flotilladb.Raft.Valid.{Indexed}
use flotilladb.Raft.Files.{
  encode_log_payload, encode_log_record, encode_log, read_log_entry, check_log_entry,
  decode_log_payload, load_loop,
}

-- The fields of an entry fit the widths of its record.
pub record EntryFits (e : LogEntry) : Type 0 where
  pub term : e.term < 2 ^ 64
  pub index : e.index < 2 ^ 64
  pub command : length e.command < 2 ^ 32
  pub payload : length (encode_log_payload e) < 2 ^ 32

read_log_entry-encode :
    (e : LogEntry) → EntryFits e → read_log_entry (decoder (encode_log_payload e)) ≡ (e, decoder [])
unfolding read_log_entry encode_log_payload
read_log_entry-encode e f =
    rw
      (
        u64-put e.term _ f.term,
        u64-put e.index _ f.index,
        ← append-nil (put_length_prefixed e.command),
        str-put e.command [] f.command,
      )
      refl

whole : (e : LogEntry) → check_log_entry (e, decoder []) ≡ some e
unfolding check_log_entry finished decoder
whole e = refl

pub decode_log_payload-encode :
    (e : LogEntry) → EntryFits e → decode_log_payload (encode_log_payload e) ≡ some e
unfolding decode_log_payload
decode_log_payload-encode e f = ap check_log_entry (read_log_entry-encode e f) ∙ whole e

-- One round over a record whose index is the one expected, and over one that is below it
pub load_loop-next :
    (e : LogEntry) (fuel : ℕ) (rest : List ℕ) (expect end : ℕ)
    → EntryFits e
    → e.index ≡ expect
    → load_loop (suc fuel) (encode_log_record e ++ rest) expect end ≡ (
        let more = load_loop fuel rest (expect + 1) (end + (8 + length (encode_log_payload e))) in
        (e ∷ more.0, more.1))
unfolding load_loop encode_log_record
load_loop-next e fuel rest expect end f h =
    let here : (e.index == expect) ≡ true = (==_iff _ _).1 h in
    let not_below : ltb e.index expect ≡ false = ground arith in
    rw
      (
        load_loop,
        unframe-frame (encode_log_payload e) rest f.payload,
        decode_log_payload-encode e f,
        not_below,
        here,
      )
      refl

load_loop-covered :
    (e : LogEntry) (fuel : ℕ) (rest : List ℕ) (expect end : ℕ)
    → EntryFits e
    → e.index < expect
    → load_loop (suc fuel) (encode_log_record e ++ rest) expect end
      ≡ load_loop fuel rest expect (end + (8 + length (encode_log_payload e)))
unfolding load_loop encode_log_record
load_loop-covered e fuel rest expect end f h =
    rw
      (
        load_loop,
        unframe-frame (encode_log_payload e) rest f.payload,
        decode_log_payload-encode e f,
        lt→ltb e.index expect h,
      )
      refl

load_loop-stop :
    (fuel expect end : ℕ) (torn : List ℕ)
    → unframe torn ≡ none
    → load_loop fuel torn expect end ≡ ([], end)
unfolding load_loop
load_loop-stop zero expect end torn h = refl
load_loop-stop (suc fuel) expect end torn h = rw (h, load_loop) refl

pub length-encode_log :
    (e : LogEntry) (es : List LogEntry)
    → length (encode_log (e ∷ es)) ≡ 8 + length (encode_log_payload e) + length (encode_log es)
unfolding encode_log encode_log_record
length-encode_log e es = omega (
  arith,
  length-append (frame (encode_log_payload e)) (encode_log es),
  length-frame (encode_log_payload e),
)

pub encode_log-front :
    (e : LogEntry) (es : List LogEntry) (torn : List ℕ)
    → encode_log (e ∷ es) ++ torn ≡ encode_log_record e ++ (encode_log es ++ torn)
unfolding encode_log
encode_log-front e es torn = append_assoc (encode_log_record e) (encode_log es) torn

load_loop-encode :
    (es : List LogEntry) (torn : List ℕ) (fuel expect end : ℕ)
    → All EntryFits es
    → Indexed expect es
    → unframe torn ≡ none
    → length (encode_log es) ≤ fuel
    → load_loop fuel (encode_log es ++ torn) expect end ≡ (es, end + length (encode_log es))
unfolding encode_log
load_loop-encode [] torn fuel expect end fs h t k =
    load_loop-stop fuel expect end torn t
    ∙ ap (λ (n : ℕ). let p : List LogEntry × ℕ = ([], n) in p) (omega arith)
load_loop-encode (e ∷ es) torn zero expect end fs h t k =
    absurd (omega (arith, length-encode_log e es))
load_loop-encode (e ∷ es) torn (suc fuel) expect end (f, fs) (h, hs) t k =
    let pos = end + (8 + length (encode_log_payload e)) in
    let more =
      load_loop-encode es torn fuel (expect + 1) pos fs
        (subst (λ (i : ℕ). Indexed i es) (omega arith) hs) t
        (omega (arith, length-encode_log e es)) in
    step more (omega (arith, length-encode_log e es))
  where
    step :
        load_loop fuel
            (encode_log es ++ torn)
            (expect + 1)
            (end + (8 + length (encode_log_payload e)))
          ≡ (es, end + (8 + length (encode_log_payload e)) + length (encode_log es))
        → end + (8 + length (encode_log_payload e)) + length (encode_log es)
          ≡ end + length (encode_log (e ∷ es))
        → load_loop (suc fuel) (encode_log (e ∷ es) ++ torn) expect end
          ≡ (e ∷ es, end + length (encode_log (e ∷ es)))
    step more size =
        ap (λ xs. load_loop (suc fuel) xs expect end) (encode_log-front e es torn)
        ∙ load_loop-next e fuel (encode_log es ++ torn) expect end f h
        ∙ rw (more, size) refl

pub load_loop-behind :
    (cs es : List LogEntry) (torn : List ℕ) (fuel expect end : ℕ)
    → All EntryFits cs
    → All (λ e. e.index < expect) cs
    → All EntryFits es
    → Indexed expect es
    → unframe torn ≡ none
    → length (encode_log (cs ++ es)) ≤ fuel
    → load_loop fuel (encode_log (cs ++ es) ++ torn) expect end
      ≡ (es, end + length (encode_log (cs ++ es)))
load_loop-behind [] es torn fuel expect end gs low fs h t k =
    load_loop-encode es torn fuel expect end fs h t k
load_loop-behind (c ∷ cs) es torn zero expect end gs low fs h t k =
    absurd (omega (arith, length-encode_log c (cs ++ es)))
load_loop-behind (c ∷ cs) es torn (suc fuel) expect end (g, gs) (l, low) fs h t k =
    ap (λ xs. load_loop (suc fuel) xs expect end) (encode_log-front c (cs ++ es) torn)
    ∙ load_loop-covered c fuel (encode_log (cs ++ es) ++ torn) expect end g l
    ∙ load_loop-behind cs es torn fuel expect (end + (8 + length (encode_log_payload c))) gs low fs
        h t (omega (arith, length-encode_log c (cs ++ es)))
    ∙ ap (λ (n : ℕ). let p : List LogEntry × ℕ = (es, n) in p)
        (omega (arith, length-encode_log c (cs ++ es)))
